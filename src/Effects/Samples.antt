-- ===== src/Effects/Samples.antt =====
-- Two updates that are staged and moved, and one file that is written again from its artifact.
use esaa_event_sourcing_agen.Prelude.{
  ◌≡◌, refl, String, false, Option, none, some, List, [], ◌∷◌, All, ◌==◌, if◌then◌else◌, or_else,
  lookup, put, remove, join, padded, strip, to_slashes, has_prefix,
}
use esaa_event_sourcing_agen.Prelude.Paths.{split_on, at_root}
use esaa_event_sourcing_agen.Prelude.Sorting.{sort_by}
use esaa_event_sourcing_agen.Machine.{Action}
use esaa_event_sourcing_agen.Event.{Effect, Event, empty_payload}
use esaa_event_sourcing_agen.Examples.{event}
use esaa_event_sourcing_agen.Effects.{
  Disk, Update, Staged, Artifact, Archive, Settled, staged_path_of, staged_entry, staged_entries,
  write_staged, stage_file_updates, commit_staged, discard_staged, artifact_error, checked_artifact,
  read_artifact, safe_rel_path, latest_effects, latest_by_path, final_file, is_applied, settled_at,
  settled_rel, settled_artifact, settle, record_settled, recover_each, recover_file_effects,
}
use esaa_event_sourcing_agen.Effects.Moves.{Ready, found_after}
use esaa_event_sourcing_agen.Effects.Latest.{Logged}
use esaa_event_sourcing_agen.Effects.Restored.{
  KeptOrRestored, start_on, recover_file_effects-paths, settle-again,
}

program : Unit {0}
unfolding lookup put remove padded strip to_slashes has_prefix split_on at_root sort_by
    staged_path_of staged_entry staged_entries write_staged stage_file_updates commit_staged
    discard_staged artifact_error checked_artifact read_artifact safe_rel_path latest_effects
    latest_by_path final_file is_applied settled_at settled_rel settled_artifact settle
    record_settled recover_each recover_file_effects Ready found_after
program = tt

same_file : at_root "/w" "docs//./a.md" ≡ "/w/docs/a.md"
unfolding program
same_file = refl

elsewhere : at_root "/w" "/etc/passwd" ≡ "/etc/passwd"
unfolding program
elsewhere = refl

abbrev update : String → String → Update
update path content = record {
  path = path;
  content = content;
  final_abs_path = none;
  effect_scope = none;
  source_path = none;
  target = none;
  target_root = none;
  target_path = none;
}

abbrev sha256 : String → String
sha256 s = join "h" s

abbrev updates : List Update
updates = update "docs\\a.md" "new" ∷ update "docs/b.md" "text" ∷ []

abbrev staged : List Staged
unfolding staged_entries staged_entry staged_path_of padded to_slashes at_root split_on has_prefix
staged = staged_entries sha256 "/w" 0 updates

abbrev old_disk : Disk
old_disk = ("/w/docs/a.md", "old") ∷ []

abbrev staged_disk : Disk
unfolding write_staged staged put
staged_disk = write_staged staged old_disk

committed :
    (commit_staged "/w" staged staged_disk).disk
    ≡ ("/w/docs/a.md", "new") ∷ ("/w/docs/b.md", "text") ∷ []
unfolding program staged staged_disk
committed = refl

discarded : discard_staged staged staged_disk ≡ old_disk
unfolding program staged staged_disk
discarded = refl

abbrev artifact : Artifact
artifact = record {
  path = some "docs/a.md";
  after_sha256 = some "hnew";
  absolute_path = none;
  effect_scope = some "workspace";
  target_root = none;
  target_path = none;
  artifact_sha256 = some "hnew";
  content = some "new";
}

abbrev archive : Archive
archive = record {
  sha256 = sha256;
  canonical = λ a. or_else a.content "";
  canonical_new = λ metadata content now. content;
  written = λ metadata content now sha. content;
  loads = λ text. if text == "artifact" then some artifact else none;
}

abbrev nowhere : Artifact → Option String
nowhere a = none

abbrev disk : Disk
disk = ("/w/art.json", "artifact") ∷ ("/w/docs/a.md", "old") ∷ []

abbrev effect : Effect
effect = record { path = some "docs/a.md"; after_sha256 = "hnew"; artifact_path = some "art.json" }

abbrev log : List Event
log = event 1 "EV-00000001" Action.file_write (record empty_payload { effects = effect ∷ [] }) ∷ []

recovered : recover_file_effects archive nowhere "/w" false log disk ≡ record {
  disk = ("/w/art.json", "artifact") ∷ ("/w/docs/a.md", "new") ∷ [];
  recovered = "docs/a.md" ∷ [];
  already_applied = [];
  errors = [];
}
unfolding program
recovered = refl

recover_file_effects-paths_example :
    KeptOrRestored archive nowhere "/w" false
      (sort_by (λ kv. kv.0) (latest_by_path [] log))
      (start_on archive nowhere "/w" disk)
      "/w/docs/a.md"
      (lookup "/w/docs/a.md" (recover_file_effects archive nowhere "/w" false log disk).disk)
    × All (Logged log) (sort_by (λ kv. kv.0) (latest_by_path [] log))
recover_file_effects-paths_example =
    recover_file_effects-paths archive nowhere "/w" false log disk "/w/docs/a.md"

to_be_written :
    settle archive nowhere "/w" disk effect ≡ Settled.to_write "docs/a.md" "/w/docs/a.md" "new"
unfolding program
to_be_written = refl

applied_then :
    settle archive nowhere "/w" (put "/w/docs/a.md" "new" disk) effect ≡ Settled.applied "docs/a.md"
unfolding at_root
applied_then =
    settle-again archive nowhere "/w" disk effect "docs/a.md" "/w/docs/a.md" "new" to_be_written
      refl
