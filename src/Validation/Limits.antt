-- ===== src/Validation/Limits.antt =====
-- The file updates of an output: resource limits, unique paths and safe paths.
use Prim.Native.String.{len}
use esaa_event_sourcing_agen.Prelude.{
  ℕ, ◌+◌, String, Bool, true, false, not, ◌||◌, Option, none, some, List, [], ◌∷◌, ◌==◌,
  if◌then◌else◌, or_else, ltb, leb, length, contains, has_prefix, strip,
}
use esaa_event_sourcing_agen.Prelude.Paths.{path_parts, traverses}
use esaa_event_sourcing_agen.Codes.{Code}
use esaa_event_sourcing_agen.Outcome.{Outcome, ok, raise, index_error, ◌>>=◌, ◌>>◌, guard}
use esaa_event_sourcing_agen.Conflicts.{normalize_rel_path}
use esaa_event_sourcing_agen.Edits.{Edit}

pub record FileUpdate : Type 0 where
  pub path : String
  pub content : Option String
  pub edits : Option (List Edit)
  pub base_sha256 : Option String

-- `policy["resource_limits"]`: a value that `int` does not take, or that is negative, is `none`.
pub record ResourceLimits : Type 0 where
  pub max_file_updates : Option ℕ
  pub max_bytes_per_update : Option ℕ
  pub max_bytes_total : Option ℕ

-- `_positive_int`
abbrev pub positive_int : Option ℕ → ℕ → ℕ
positive_int none default = default
positive_int (some n) default = if leb 1 n then n else default

pub record Limits3 : Type 0 where
  pub updates : ℕ
  pub per_update : ℕ
  pub total : ℕ

unfoldable pub resource_limits_from_policy : ResourceLimits → Limits3
resource_limits_from_policy r = record {
  updates = positive_int r.max_file_updates 32;
  per_update = positive_int r.max_bytes_per_update 2097152;
  total = positive_int r.max_bytes_total 8388608;
}

-- the size of an edit: `old_string` and `new_string` in bytes
edit_size : Edit → ℕ
edit_size e = len (or_else e.old_string "") + len (or_else e.new_string "")

edits_size : List Edit → ℕ
unfolding edit_size
edits_size [] = 0
edits_size (e ∷ es) = edit_size e + edits_size es

unfoldable pub file_update_size : FileUpdate → ℕ
unfolding edits_size
file_update_size u = elim u.content [
  | some text ↦ len text
  | none ↦ edits_size (or_else u.edits [])
]

-- the `for` loop, from the total so far
unfoldable pub check_sizes : Limits3 → ℕ → List FileUpdate → Outcome ℕ
check_sizes limits total [] = ok total
check_sizes limits total (u ∷ us) = do
  guard (not (ltb limits.per_update (file_update_size u))) Code.resource_limit_exceeded
  check_sizes limits (total + file_update_size u) us

unfoldable pub validate_file_update_resource_limits :
    List FileUpdate → ResourceLimits → Outcome (Unit {0})
validate_file_update_resource_limits updates policy = do
  let limits = resource_limits_from_policy policy
  guard (not (ltb limits.updates (length updates))) Code.resource_limit_exceeded
  total ← check_sizes limits 0 updates
  guard (not (ltb limits.total total)) Code.resource_limit_exceeded

-- the loop of `validate_unique_file_update_paths`
unfoldable pub unique_paths : List String → List FileUpdate → Outcome (Unit {0})
unique_paths seen [] = ok tt
unique_paths seen (u ∷ us) = do
  guard (not (contains seen u.path)) Code.file_update_duplicate_path
  unique_paths (u.path ∷ seen) us

unfoldable pub validate_unique_file_update_paths : List FileUpdate → Outcome (Unit {0})
validate_unique_file_update_paths updates = unique_paths [] updates

abbrev pub is_runtime : String → Bool
is_runtime path = has_prefix "runtime://" path

unfoldable pub validate_safe_path : String → Outcome String
validate_safe_path path =
    let norm = normalize_rel_path path in
    if is_runtime path then ok path else (do
      guard (not (norm == "" || has_prefix "/" norm || has_prefix ".." norm))
          Code.boundary_violation
      guard (not (traverses norm)) Code.boundary_violation
      ok norm)

has_colon : String → Bool
has_colon String.[] = false
has_colon (String.◌∷◌ c s) = ":" == String.◌∷◌ c "" || has_colon s

-- `":" in PurePosixPath(norm).parts[0]`
first_has_colon : List String → Outcome Bool
unfolding has_colon
first_has_colon [] = raise index_error
first_has_colon (p ∷ ps) = ok (has_colon p)

-- `norm.startswith("/") or (":" in PurePosixPath(norm).parts[0])`
unfoldable pub is_absolute : String → Outcome Bool
unfolding first_has_colon
is_absolute norm = if has_prefix "/" norm then ok true else first_has_colon (path_parts norm)

unfoldable pub grant_pattern : String → Outcome String
grant_pattern raw = do
  let pattern = strip raw
  let norm = normalize_rel_path pattern
  guard (not (pattern == "")) Code.schema_invalid
  guard (not (is_runtime pattern)) Code.schema_invalid
  absolute ← is_absolute norm
  guard (not absolute) Code.schema_invalid
  guard (not (traverses norm)) Code.schema_invalid
  guard (not (norm == ".roadmap" || has_prefix ".roadmap/" norm)) Code.schema_invalid
  ok norm

unfoldable pub validate_boundary_grant : List String → Outcome (List String)
validate_boundary_grant [] = ok []
validate_boundary_grant (raw ∷ patterns) = do
  norm ← grant_pattern raw
  validated ← validate_boundary_grant patterns
  ok (norm ∷ validated)
