-- ===== src/Effects/Staging.antt =====
-- `stage_file_updates`, `commit_staged` and `discard_staged`.
use esaa_event_sourcing_agen.Prelude.{
  ℕ, zero, suc, String, Option, none, some, List, [], ◌∷◌, or_else, lookup, put, remove, join,
  padded, to_slashes, ◌==◌, if◌then◌else◌,
}
use esaa_event_sourcing_agen.Prelude.Paths.{at_root}
use esaa_event_sourcing_agen.Outcome.{Outcome, ok, raise, os_error}

-- The texts of the files by their paths, which are written as `at_root` gives them.
abbrev pub Disk : Type 0
Disk = List (String × String)

-- `s[:n]`
abbrev first_chars : ℕ → String → String
first_chars zero s = String.[]
first_chars (suc n) String.[] = String.[]
first_chars (suc n) (String.◌∷◌ c s) = String.◌∷◌ c (first_chars n s)

-- a file update with the keys `_esaa_*` of an external one
pub record Update : Type 0 where
  pub path : String
  pub content : String
  pub final_abs_path : Option String
  pub effect_scope : Option String
  pub source_path : Option String
  pub target : Option String
  pub target_root : Option String
  pub target_path : Option String

pub record Staged : Type 0 where
  pub final_path : String
  pub staged_path : String
  pub content : String
  pub final_abs_path : Option String
  pub effect_scope : String
  pub source_path : String
  pub target : Option String
  pub target_root : Option String
  pub target_path : Option String

-- `Path(final_abs_path) if final_abs_path else root / final_path`, where `final_abs_path` is absolute
abbrev pub place_of : String → Option String → String → String
place_of root none path = at_root root path
place_of root (some absolute) path =
    if absolute == "" then at_root root path else at_root root absolute

abbrev pub final_of : String → Staged → String
final_of root s = place_of root s.final_abs_path s.final_path

-- What moving files leaves behind, also when it raises.
pub record Moved : Type 0 where
  pub disk : Disk
  pub result : Outcome (Unit {0})

unfoldable pub commit_staged : String → List Staged → Disk → Moved
commit_staged root [] disk = record { disk = disk; result = ok tt }
commit_staged root (s ∷ staged) disk = elim (lookup s.staged_path disk) [
  | none ↦ record { disk = disk; result = raise os_error }
  | some content ↦
      commit_staged root staged (put (final_of root s) content (remove s.staged_path disk))
]

unfoldable pub discard_staged : List Staged → Disk → Disk
discard_staged [] disk = disk
discard_staged (s ∷ staged) disk = discard_staged staged (remove s.staged_path disk)

unfoldable pub write_staged : List Staged → Disk → Disk
write_staged [] disk = disk
write_staged (s ∷ staged) disk = write_staged staged (put s.staged_path s.content disk)

module _ (sha256 : String → String) (root : String) where
  -- `stage-{i:04d}-{sha[:12]}.tmp`, under `.roadmap/staging`
  unfoldable pub staged_path_of : ℕ → String → String
  staged_path_of i content = at_root root (
      join ".roadmap/staging/stage-"
        (join (padded 4 i) (join "-" (join (first_chars 12 (sha256 content)) ".tmp"))))

  unfoldable pub staged_entry : ℕ → Update → Staged
  staged_entry i u = record {
    final_path = to_slashes u.path;
    staged_path = staged_path_of i u.content;
    content = u.content;
    final_abs_path = u.final_abs_path;
    effect_scope = or_else u.effect_scope "workspace";
    source_path = or_else u.source_path (to_slashes u.path);
    target = u.target;
    target_root = u.target_root;
    target_path = u.target_path;
  }

  -- the records of the updates from number `i` on
  unfoldable pub staged_entries : ℕ → List Update → List Staged
  staged_entries i [] = []
  staged_entries i (u ∷ us) = staged_entry i u ∷ staged_entries (suc i) us

  -- the disk with the staged files, and their records
  unfoldable pub stage_file_updates : List Update → Disk → Disk × List Staged
  stage_file_updates updates disk =
      let staged = staged_entries 0 updates in (write_staged staged disk, staged)
