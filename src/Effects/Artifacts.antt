-- ===== src/Effects/Artifacts.antt =====
-- `compute_file_metadata`, `write_artifact`, `verify_artifact` and `read_artifact`. All texts are
-- UTF-8. `json` and `hashlib` are the record `Archive`.
use Prim.Native.String.{len}
use esaa_event_sourcing_agen.Prelude.{
  ℕ, String, Bool, false, not, ◌==◌, Option, none, some, List, [], ◌∷◌, if◌then◌else◌, or_else,
  is_some, truthy, lookup, put, join,
}
use esaa_event_sourcing_agen.Effects.Staging.{Disk, Update, Staged, final_of, stage_file_updates}
use esaa_event_sourcing_agen.Prelude.Paths.{at_root}

-- The metadata of a change, with the hash and the path of its artifact once it is written.
pub record Metadata : Type 0 where
  pub path : String
  pub before_sha256 : Option String
  pub after_sha256 : String
  pub bytes : ℕ
  pub absolute_path : Option String
  pub effect_scope : String
  pub source_path : String
  pub target : Option String
  pub target_root : Option String
  pub target_path : Option String
  pub artifact_sha256 : Option String
  pub artifact_path : Option String

-- A decoded artifact: the keys that are read again.
pub record Artifact : Type 0 where
  pub path : Option String
  pub after_sha256 : Option String
  pub absolute_path : Option String
  pub effect_scope : Option String
  pub target_root : Option String
  pub target_path : Option String
  pub artifact_sha256 : Option String
  pub content : Option String

-- `canonical` is the text that `_canonical_artifact_hash` hashes, and `written` the text of an
-- artifact of this metadata and content, at this time, with this hash.
pub record Archive : Type 0 where
  pub sha256 : String → String
  pub canonical : Artifact → String
  pub canonical_new : Metadata → String → String → String
  pub written : Metadata → String → String → String → String
  pub loads : String → Option Artifact

abbrev artifact_dir : String
artifact_dir = ".roadmap/artifacts/file-effects"

abbrev pub is_text : Option String → String → Bool
is_text none t = false
is_text (some s) t = s == t

module _ (k : Archive) where
  -- the checks on a decoded artifact; `none` is the answer `True`
  unfoldable pub artifact_error : Artifact → Option String
  artifact_error a =
      if not (truthy a.artifact_sha256)
      then some "ARTIFACT_NO_HASH"
      else if not (is_text a.artifact_sha256 (k.sha256 (k.canonical a)))
      then some "ARTIFACT_HASH_MISMATCH"
      else if not (is_text a.after_sha256 (k.sha256 (or_else a.content "")))
      then some "ARTIFACT_CONTENT_HASH_MISMATCH"
      else none

  unfoldable pub verified_text : Option String → Option String
  unfolding artifact_error
  verified_text none = some "ARTIFACT_MISSING"
  verified_text (some text) = elim (k.loads text) [
    | none ↦ some "ARTIFACT_INVALID_JSON"
    | some a ↦ artifact_error a
  ]

  unfoldable pub checked_artifact : Artifact → Option Artifact
  checked_artifact a = elim (artifact_error a) [ none ↦ some a | some error ↦ none ]

module _ (k : Archive) (root : String) where
  unfoldable pub compute_file_metadata : Staged → Disk → Metadata
  compute_file_metadata s disk = record {
    path = s.final_path;
    before_sha256 = elim (lookup (final_of root s) disk) [
      | none ↦ none
      | some text ↦ some (k.sha256 text)
    ];
    after_sha256 = k.sha256 s.content;
    bytes = len s.content;
    absolute_path = s.final_abs_path;
    effect_scope = s.effect_scope;
    source_path = s.source_path;
    target = s.target;
    target_root = s.target_root;
    target_path = s.target_path;
    artifact_sha256 = none;
    artifact_path = none;
  }

  -- An artifact that is there is not written again.
  unfoldable pub write_artifact : String → Metadata → String → Disk → Disk × Metadata
  write_artifact now metadata content disk =
      let sha = k.sha256 (k.canonical_new metadata content now) in
      let path = join artifact_dir (join "/" (join sha ".json")) in
      let file = at_root root path in
      (
        if is_some (lookup file disk)
            then disk
            else put file (k.written metadata content now sha) disk,
        record metadata { artifact_sha256 = some sha; artifact_path = some path },
      )

  -- the loop of `stage_and_compute`
  unfoldable pub compute_all : String → List Staged → Disk → Disk × List Metadata
  compute_all now [] disk = (disk, [])
  compute_all now (s ∷ staged) disk =
      let written = write_artifact now (compute_file_metadata s disk) s.content disk in
      let rest = compute_all now staged written.0 in (rest.0, written.1 ∷ rest.1)

  unfoldable pub stage_and_compute :
      String → List Update → Disk → Disk × List Staged × List Metadata
  stage_and_compute now updates disk =
      let staged = stage_file_updates k.sha256 root updates disk in
      let computed = compute_all now staged.1 staged.0 in (computed.0, staged.1, computed.1)

  unfoldable pub verify_artifact : String → Disk → Option String
  unfolding verified_text
  verify_artifact artifact_path disk = verified_text k (lookup (at_root root artifact_path) disk)

  -- `none` where `read_artifact` raises
  unfoldable pub read_artifact : String → Disk → Option Artifact
  read_artifact artifact_path disk = elim (lookup (at_root root artifact_path) disk) [
    | none ↦ none
    | some text ↦ elim (k.loads text) [ none ↦ none | some a ↦ checked_artifact k a ]
  ]
