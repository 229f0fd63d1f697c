-- ===== src/Effects/Recovery.antt =====
-- `recover_file_effects`. Where it catches an exception, the text of this is left out. `pathlib` says
-- where the file of an external effect is, if it lies under its root (`external_final`).
use esaa_event_sourcing_agen.Prelude.{
  String, Bool, false, ◌&&◌, ◌||◌, ◌==◌, Option, none, some, List, [], ◌∷◌, ◌++◌, if◌then◌else◌,
  or_else, truthy, lookup, put, join, strip, to_slashes, has_prefix, contains,
}
use esaa_event_sourcing_agen.Prelude.Paths.{split_on, at_root}
use esaa_event_sourcing_agen.Prelude.Sorting.{sort_by}
use esaa_event_sourcing_agen.Machine.{Action}
use esaa_event_sourcing_agen.Event.{Effect, Event}
use esaa_event_sourcing_agen.Effects.Staging.{Disk}
use esaa_event_sourcing_agen.Effects.Artifacts.{Artifact, Archive, read_artifact}

not_empty : List String → List String
not_empty [] = []
not_empty (p ∷ ps) = let rest = not_empty ps in if p == "" then rest else p ∷ rest

slashed : List String → String
slashed [] = ""
slashed (p ∷ []) = p
slashed (p ∷ q ∷ ps) = join p (join "/" (slashed (q ∷ ps)))

-- `none` where `_safe_rel_path` raises
unfoldable pub safe_rel_path : String → Option String
unfolding not_empty slashed
safe_rel_path path =
    let norm = strip (to_slashes path) in
    let parts = not_empty (split_on 47 norm) in
    if norm == "" || has_prefix "/" norm || contains parts ".." then none else some (slashed parts)

-- the later effects of a path replace the earlier ones
unfoldable pub latest_effects : List (String × Effect) → List Effect → List (String × Effect)
latest_effects latest [] = latest
latest_effects latest (e ∷ es) =
    latest_effects
      (if truthy e.path && truthy e.artifact_path then put (or_else e.path "") e latest else latest)
      es

unfoldable pub latest_by_path : List (String × Effect) → List Event → List (String × Effect)
latest_by_path latest [] = latest
latest_by_path latest (e ∷ es) = elim e.action [
  | Action.file_write ↦ latest_by_path (latest_effects latest e.payload.effects) es
  | _ ↦ latest_by_path latest es
]

-- What becomes of one effect: a file that is to be written, a file that is there, or an error.
pub data Settled : Type 0 where
  to_write : (rel_path final content : String) → Settled
  applied : (rel_path : String) → Settled
  failed : Settled

pub record Recovered : Type 0 where
  pub disk : Disk
  pub recovered : List String
  pub already_applied : List String
  pub errors : List String  -- the paths

-- `artifact.get("target_path") or artifact["path"]`
abbrev pub target_of : Artifact → Option String
target_of a = if truthy a.target_path then a.target_path else a.path

abbrev is_external : Artifact → Bool
is_external a = or_else a.effect_scope "" == "external"

module _ (k : Archive) (external_final : Artifact → Option String) (root : String) where
  unfoldable pub final_file : Artifact → String → Option String
  final_file a rel_path = if is_external a then external_final a else some (at_root root rel_path)

  -- `final.exists() and _sha256_bytes(final.read_bytes()) == after_sha`
  unfoldable pub is_applied : Artifact → Option String → Bool
  is_applied a none = false
  is_applied a (some text) = k.sha256 text == or_else a.after_sha256 ""

  unfoldable pub settled_at : Disk → Artifact → String → String → Settled
  settled_at disk a rel_path final =
      if is_applied a (lookup final disk)
      then applied rel_path
      else to_write rel_path final (or_else a.content "")

  unfoldable pub settled_rel : Disk → Artifact → String → Settled
  settled_rel disk a rel_path = elim (final_file a rel_path) [
    | none ↦ failed
    | some final ↦ settled_at disk a rel_path final
  ]

  unfoldable pub settled_artifact : Disk → Artifact → Settled
  settled_artifact disk a = elim (target_of a) [
    | none ↦ failed
    | some path ↦ elim (safe_rel_path path) [ none ↦ failed | some rel ↦ settled_rel disk a rel ]
  ]

  -- the body of the `try`, up to the writing of the file
  unfoldable pub settle : Disk → Effect → Settled
  settle disk e = elim (read_artifact k root (or_else e.artifact_path "") disk) [
    | none ↦ failed
    | some a ↦ settled_artifact disk a
  ]

  unfoldable pub record_settled : Bool → String → Settled → Recovered → Recovered
  record_settled dry_run path (to_write rel final content) r = record r {
    disk = if dry_run then r.disk else put final content r.disk;
    recovered = r.recovered ++ rel ∷ [];
  }
  record_settled dry_run path (applied rel) r = record r {
    already_applied = r.already_applied ++ rel ∷ [];
  }
  record_settled dry_run path failed r = record r { errors = r.errors ++ path ∷ [] }

  -- the loop over the paths
  unfoldable pub recover_each : Bool → List (String × Effect) → Recovered → Recovered
  recover_each dry_run [] r = r
  recover_each dry_run ((path, e) ∷ effects) r =
      recover_each dry_run effects (record_settled dry_run path (settle r.disk e) r)

  unfoldable pub recover_file_effects : Bool → List Event → Disk → Recovered
  recover_file_effects dry_run events disk =
      recover_each dry_run (sort_by (λ kv. kv.0) (latest_by_path [] events))
        (record { disk = disk; recovered = []; already_applied = []; errors = [] })
