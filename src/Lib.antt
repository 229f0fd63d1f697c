-- ===== src/Lib.antt =====
-- A model of ESAA, an event-sourced orchestrator for coding agents, with the theorems that make its
-- core correct. Agents never write state: each accepted step is an event in an append-only store
-- (.roadmap/activity.jsonl), and every view is a fold of the events. Events come in through the
-- state machine's checks, the store numbers and chains them, the projection replays them, and the
-- scheduler picks the next tasks from the replayed tasks.
--
-- Parts, with the code each file is about:
--   Codes.antt, Outcome.antt: src/esaa/reject_codes.py and errors.py. A function that may raise
--     returns an `Outcome`; message texts are left out.
--   Machine.antt: src/esaa/state_machine.py (expected_action_for, allowed_actions_for, next_status,
--     classify_transition). Machine/Agreement.antt relates the three views of the machine.
--   Json.antt, Event.antt: the events, and make_event of src/esaa/events.py. A dictionary with
--     known keys is a record, a key that may be missing is an `Option`.
--   Projector.antt and its children: src/esaa/projector.py. Records.antt is _new_task and
--     _empty_state, Tasks.antt the claim, complete and review handlers, Issues.antt the issue and
--     hotfix handlers, Apply.antt _apply_event and the loop of materialize, Views.antt the views of
--     materialize with compute_projection_hash. Replay.antt holds the theorems about replays.
--   Conflicts.antt: src/esaa/conflicts.py and normalize_rel_path of src/esaa/utils.py.
--   Scheduling.antt: src/esaa/seeds.py (select_next_task, select_task_wave, list_eligible_tasks,
--     parallel_groups, tasks_with_planned_plugins).
--   Store.antt and its children: src/esaa/store.py with normalize_legacy_event of
--     src/esaa/compat.py and validate_runner_block of src/esaa/provenance.py. Lines.antt is
--     str.splitlines, Chain.antt the hash chain, Parse.antt parse_event_store, Append.antt
--     append_events and append_transactional. Log.antt holds the theorems about the store.
--   Service.antt and its children: src/esaa/service_core.py. Retry.antt is
--     _append_events_transactionally, Seal.antt the events that close a commit, Commit.antt
--     _commit_orchestrator_events, Views.antt project, verify and replay. What other processes write
--     is the argument `others`.
--   Snapshot.antt: src/esaa/snapshot.py (create_snapshot, compact_event_store).
--   Effects.antt and its children: src/esaa/file_effects.py. Staging.antt stages, moves and discards
--     files, Artifacts.antt writes and checks artifacts, Recovery.antt is recover_file_effects.
--   Submission.antt and its children: submit of src/esaa/submission.py. Preparation.antt is its checks
--     and the staging, Candidates.antt the events, Submit.antt the whole with its error paths.
--   Admin.antt: create_task, reject_output, create_hotfix and resolve_issue of
--     src/esaa/task_admin.py.
--   Examples.antt: events and codecs for the tests.
--   Hotfix.antt: validate_hotfix_request, build_hotfix_event and, in Hotfix/Resolution.antt,
--     build_issue_resolve_event of src/esaa/events.py.
--   Edits.antt: apply_edits of src/esaa/edits.py; Edits/Resolving.antt is resolve_edit_updates.
--   Validation.antt and its children: src/esaa/validator.py. Limits.antt is resource limits, unique
--     and safe paths, Outputs.antt validate_agent_output with the boundaries of a task.
--     Actions.antt holds the texts of the actions.
--   Policy.antt: src/esaa/runtime_policy.py (attempt limits, cooldown, expiry, roles and modes).
--
-- How they interact: Store/Append.antt parses the text of the store, prepares the events, and for a
-- transaction materializes the whole log before it writes; Scheduling.antt works on the tasks of
-- the replayed state, with the conflict check of Conflicts.antt between their write sets.
-- Submission/ puts Validation/, Edits/, Effects/, Hotfix/ and Service/ together into submit, which
-- checks an output, stages its files, appends the events and then moves the files to their paths.
--
-- Parameters: `json` and `hashlib` are the record `Codec` (an event to a line and back, the
-- canonical text, SHA-256), `sha256_hex` on a projection is `digest`, `fnmatch` and the answer of
-- `jsonschema` (`conforms`) are functions, and the clock and the runner block are arguments. A
-- decoded line has a `runner` of any kind; `ts`, `actor` and the like have the types of the event
-- schema. The store's state is its text; the lock makes each operation one step.
--
-- Bounds: loops are structural recursion. Only the decimal digits of a sequence number run on fuel:
-- n has at most n + 1 digits, and that is the fuel given. Sequence numbers are Python integers,
-- which have no width. A disk is a dictionary from paths to texts, and a path is the text of
-- `root / path`: absolute paths, empty parts and dots are as in `pathlib`, `..` and links are not
-- followed.
--
-- Not modelled: the take-over of a stale lock, the saving of views, seed texts and plugin files,
-- the dispatch context, the inbox and the run loop, the task commands that submit, metrics,
-- replay_compacted, external effects, plugins, the command line and the adapters.
mod Prelude
pub mod Codes
pub mod Outcome
pub mod Machine
pub mod Actions
pub mod Json
pub mod Validation
pub mod Event
pub mod Projector
pub mod Replay
pub mod Conflicts
pub mod Scheduling
pub mod Service
pub mod Snapshot
pub mod Examples
pub mod Policy
pub mod Store
pub mod Log
pub mod Hotfix
pub mod Edits
pub mod Effects
pub mod Submission
pub mod Admin
