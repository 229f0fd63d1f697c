-- ===== src/Edits/Samples.antt =====
-- Edits of small texts.
use esaa_event_sourcing_agen.Prelude.{
  ◌≡◌, refl, String, true, some, none, List, [], ◌∷◌, strip, to_slashes, drop_dots, has_prefix,
  lookup,
}
use esaa_event_sourcing_agen.Codes.{Code}
use esaa_event_sourcing_agen.Outcome.{esaa_error, index_error, ok, raise}
use esaa_event_sourcing_agen.Json.{bool}
use esaa_event_sourcing_agen.Edits.{
  Edit, validate_edit_item, replace_checked, apply_edit, apply_each, apply_edits,
}
use esaa_event_sourcing_agen.Edits.Rewriting.{EditedBy, apply_edits-EditedBy}
use esaa_event_sourcing_agen.Edits.Resolving.{
  Resolved, workspace_path, is_sha256, checked_base, base_text, resolve_edits, resolve_update,
  resolve_edit_updates,
}
use esaa_event_sourcing_agen.Edits.Bases.{AllMadeFrom, resolve_edit_updates-MadeFrom}
use esaa_event_sourcing_agen.Prelude.Paths.{split_on, at_root, path_parts}
use esaa_event_sourcing_agen.Conflicts.{normalize_rel_path}
use esaa_event_sourcing_agen.Effects.{Disk}
use esaa_event_sourcing_agen.Validation.{FileUpdate, is_absolute}

program : Unit {0}
unfolding strip to_slashes drop_dots lookup split_on at_root path_parts normalize_rel_path
    is_absolute workspace_path is_sha256 checked_base base_text resolve_edits resolve_update
    resolve_edit_updates has_prefix validate_edit_item replace_checked apply_edit apply_each
    apply_edits
program = tt

abbrev one : Edit
one = record { old_string = some "b"; new_string = some "xy"; replace_all = none }

abbrev each : Edit
each = record { old_string = some "a"; new_string = some ""; replace_all = some (bool true) }

edited : apply_edits "abca" (one ∷ each ∷ []) ≡ ok "xyc"
unfolding program
edited = refl

ambiguous : apply_edits "abab" (one ∷ []) ≡ raise (esaa_error Code.edit_ambiguous)
unfolding program
ambiguous = refl

-- Two places that overlap count once.
overlapping :
    apply_edits "aaa"
      (record { old_string = some "aa"; new_string = some "b"; replace_all = none } ∷ [])
    ≡ ok "ba"
unfolding program
overlapping = refl

apply_edits-EditedBy_example : EditedBy (one ∷ each ∷ []) "abca" "xyc"
apply_edits-EditedBy_example = apply_edits-EditedBy "abca" "xyc" (one ∷ each ∷ []) edited

abbrev zeros : String
zeros = "0000000000000000000000000000000000000000000000000000000000000000"

abbrev disk : Disk
disk = ("/w/docs/a.md", "abca") ∷ []

abbrev update : FileUpdate
update = record {
  path = "./docs/a.md";
  content = none;
  edits = some (one ∷ []);
  base_sha256 = some zeros;
}

abbrev result : List Resolved
result = record { path = "docs/a.md"; content = "axyca" } ∷ []

resolved : resolve_edit_updates (λ text. zeros) "/w" disk (update ∷ []) ≡ ok result
unfolding program
resolved = refl

-- The current directory has no first part.
current_directory : workspace_path "." ≡ raise index_error
unfolding program
current_directory = refl

-- Behind the dropped `./` an absolute path is left.
absolute_left : workspace_path ".//etc/passwd" ≡ ok "/etc/passwd"
unfolding program
absolute_left = refl

resolve_edit_updates-MadeFrom_example : AllMadeFrom (λ text. zeros) "/w" disk (update ∷ []) result
resolve_edit_updates-MadeFrom_example =
    resolve_edit_updates-MadeFrom (λ text. zeros) "/w" disk (update ∷ []) result resolved
