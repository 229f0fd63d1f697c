-- ===== src/Edits/Resolving.antt =====
-- `_workspace_path` and `resolve_edit_updates` of src/esaa/edits.py, and `_normalize_file_updates` of
-- src/esaa/submission.py.
use Prim.Native.Char.{Char, code}
use esaa_event_sourcing_agen.Prelude.{
  String, Bool, true, false, not, ◌&&◌, ◌||◌, ◌==◌, eqb, leb, Option, none, some, List, [], ◌∷◌,
  if◌then◌else◌, lookup, to_slashes, has_prefix, count_chars,
}
use esaa_event_sourcing_agen.Prelude.Paths.{traverses, at_root}
use esaa_event_sourcing_agen.Codes.{Code}
use esaa_event_sourcing_agen.Outcome.{Outcome, ok, raise, esaa_error, ◌>>=◌, ◌>>◌, guard}
use esaa_event_sourcing_agen.Conflicts.{normalize_rel_path}
use esaa_event_sourcing_agen.Edits.{Edit, apply_edits}
use esaa_event_sourcing_agen.Validation.{
  FileUpdate, is_runtime, is_absolute, validate_unique_file_update_paths,
}
use esaa_event_sourcing_agen.Effects.{Disk}

unfoldable pub workspace_path : String → Outcome String
workspace_path path = do
  let raw = to_slashes path
  guard (not (is_runtime path)) Code.edit_invalid
  guard (not (raw == "" || has_prefix "/" raw || has_prefix ".." raw)) Code.edit_invalid
  absolute ← is_absolute raw
  guard (not absolute) Code.edit_invalid
  let norm = normalize_rel_path raw
  guard (not (norm == "" || traverses norm)) Code.edit_invalid
  ok norm

is_hex : Char → Bool
is_hex c = (leb 48 (code c) && leb (code c) 57) || (leb 97 (code c) && leb (code c) 102)

all_hex : String → Bool
unfolding is_hex
all_hex String.[] = true
all_hex (String.◌∷◌ c s) = is_hex c && all_hex s

-- `_SHA256_RE.fullmatch`
unfoldable pub is_sha256 : String → Bool
unfolding all_hex
is_sha256 s = eqb (count_chars s) 64 && all_hex s

-- `base_sha256`, if it is a text of this form
unfoldable pub checked_base : Option String → Outcome String
checked_base none = raise (esaa_error Code.edit_invalid)
checked_base (some sha) = if is_sha256 sha then ok sha else raise (esaa_error Code.edit_invalid)

abbrev pub is_empty : List Edit → Bool
is_empty [] = true
is_empty (e ∷ es) = false

unfoldable pub base_text : Option String → Outcome String
base_text none = raise (esaa_error Code.edit_base_mismatch)
base_text (some text) = ok text

-- an update with its content
pub record Resolved : Type 0 where
  pub path : String
  pub content : String

module _ (sha256 : String → String) (root : String) (disk : Disk) where
  unfoldable pub resolve_edits : FileUpdate → List Edit → Outcome Resolved
  unfolding checked_base base_text
  resolve_edits u edits = do
    path ← workspace_path u.path
    base ← checked_base u.base_sha256
    guard (not (is_empty edits)) Code.edit_invalid
    text ← base_text (lookup (at_root root path) disk)
    guard (sha256 text == base) Code.edit_base_mismatch
    after ← apply_edits text edits
    ok (record { path = path; content = after })

  -- one round of the loop
  unfoldable pub resolve_update : FileUpdate → Outcome Resolved
  resolve_update u = elim u.edits [
    | none ↦ elim u.content [
      | none ↦ raise (esaa_error Code.schema_invalid)
      | some content ↦ ok (record { path = u.path; content = content })
    ]
    | some edits ↦ elim u.content [
      | none ↦ resolve_edits u edits
      | some content ↦ raise (esaa_error Code.edit_invalid)
    ]
  ]

  unfoldable pub resolve_edit_updates : List FileUpdate → Outcome (List Resolved)
  resolve_edit_updates [] = ok []
  resolve_edit_updates (u ∷ us) = do
    r ← resolve_update u
    rest ← resolve_edit_updates us
    ok (r ∷ rest)

normalized : List Resolved → List FileUpdate
normalized [] = []
normalized (r ∷ rs) =
    record {
      path = normalize_rel_path r.path;
      content = some r.content;
      edits = none;
      base_sha256 = none;
    }
    ∷ normalized rs

unfoldable pub normalize_file_updates :
    (String → String) → String → Disk → List FileUpdate → Outcome (List FileUpdate)
unfolding normalized
normalize_file_updates sha256 root disk updates = do
  resolved ← resolve_edit_updates sha256 root disk updates
  validate_unique_file_update_paths (normalized resolved)
  ok (normalized resolved)
