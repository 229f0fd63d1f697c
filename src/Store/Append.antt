-- ===== src/Store/Append.antt =====
-- Appending to the event store: `append_events`, `append_transactional`, `init_hash_chain` and
-- `verify_hash_chain` of src/esaa/store.py. The state is the text of the store. The lock around an
-- operation makes it one step; taking over a stale lock is not modelled. Writing the views is left
-- out.
use esaa_event_sourcing_agen.Prelude.{
  is_some, ℕ, zero, suc, ◌-◌, String, Bool, true, false, not, ◌&&◌, Option, none, some, List, [],
  ◌∷◌, ◌++◌, ◌==◌, map, if◌then◌else◌, eqb, join, length, ends_in_line_feed,
}
use esaa_event_sourcing_agen.Codes.{Code}
use esaa_event_sourcing_agen.Outcome.{esaa_error, Failure, Outcome, ok, raise, ◌>>=◌, ◌>>◌, guard}
use esaa_event_sourcing_agen.Machine.{Action}
use esaa_event_sourcing_agen.Event.{Event, Payload, Runner, empty_payload, make_event}
use esaa_event_sourcing_agen.Projector.{Projection, Materialized, materialize}
use esaa_event_sourcing_agen.Store.Lines.{stored_lines}
use esaa_event_sourcing_agen.Store.Format.{Codec}
use esaa_event_sourcing_agen.Store.Chain.{find_anchor, anchor_hash, prepare_events_for_append}
use esaa_event_sourcing_agen.Store.Parse.{parse_event_store, next_event_seq}

-- What an operation leaves behind: the store's text, also when it raises, and its result.
pub record Written {ℓ} (A : Type ℓ) : Type ℓ where
  pub text : String
  pub result : Outcome A

abbrev pub drop {ℓ} : {A : Type ℓ} → ℕ → List A → List A
drop zero xs = xs
drop (suc n) [] = []
drop (suc n) (x ∷ xs) = drop n xs

abbrev pub same_lines : List String → List String → Bool
same_lines [] [] = true
same_lines [] (m ∷ ms) = false
same_lines (l ∷ ls) [] = false
same_lines (l ∷ ls) (m ∷ ms) = l == m && same_lines ls ms

-- `verify_appended_lines` on the text read back: `actual[-len(expected):] == expected`
unfoldable pub verify_appended_lines : String → List String → Outcome (Unit {0})
verify_appended_lines text [] = ok tt
verify_appended_lines text (l ∷ ls) =
    let actual = stored_lines text in
    let expected = l ∷ ls in
    guard (same_lines (drop (length actual - length expected) actual) expected)
      Code.append_verify_failed

unfoldable pub written_lines : List String → String
written_lines [] = ""
written_lines (l ∷ ls) = join l (join "\n" (written_lines ls))

-- The file after the writes: a line feed is put behind a text that does not end in one.
unfoldable pub append_lines : String → List String → String
append_lines existing lines =
    let needs_sep = not (existing == "") && not (ends_in_line_feed existing) in
    join (if needs_sep then join existing "\n" else existing) (written_lines lines)

module _ (k : Codec) where
  unfoldable pub persist : {A : Type 0} → String → List String → A → Written A
  persist text lines a =
      let text' = append_lines text lines in
      record { text = text'; result = verify_appended_lines text' lines >> ok a }

  appended : String → List Event → Outcome (List Event) → Written (Unit {0})
  unfolding persist
  appended text events (raise e) = record { text = text; result = raise e }
  appended text events (ok current) =
      persist text (map k.dumps (prepare_events_for_append k current events)) tt

  unfoldable pub append_events : String → List Event → Written (Unit {0})
  unfolding appended
  append_events text [] = record { text = text; result = ok tt }
  append_events text (e ∷ events) = appended text (e ∷ events) (parse_event_store k text)

pub record Receipt : Type 0 where
  pub last_event_seq : ℕ
  pub projection_hash_sha256 : String
  pub events_appended : ℕ

receipt : Materialized → ℕ → Receipt
receipt m n = record {
  last_event_seq = m.roadmap.state.last_event_seq;
  projection_hash_sha256 = m.roadmap.projection_hash_sha256;
  events_appended = n;
}

unfoldable pub check_seq : Option ℕ → List Event → Outcome (Unit {0})
check_seq none events = ok tt
check_seq (some expected) events = guard (eqb (next_event_seq events) expected) Code.stale_state_seq

-- What is decided before the file is written: the lines to write and the receipt.
pub record Plan : Type 0 where
  pub lines : List String
  pub receipt : Receipt

module _ (k : Codec) where
  -- No new events, no write.
  unfoldable pub commit : String → List String → Receipt → Written Receipt
  unfolding persist
  commit text [] r = record { text = text; result = ok r }
  commit text (l ∷ ls) r = persist k text (l ∷ ls) r

module _ (k : Codec) (digest : Projection → String) (now : String) where
  unfoldable pub check_hash : Option String → List Event → Outcome (Unit {0})
  check_hash none events = ok tt
  check_hash (some expected) events = do
    current ← materialize digest now events
    guard (current.roadmap.projection_hash_sha256 == expected) Code.stale_state_hash

  unfoldable pub planned : List Event → List Event → Outcome Plan
  unfolding receipt
  planned events [] = do
    current ← materialize digest now events
    ok (record { lines = []; receipt = receipt current 0 })
  planned events (e ∷ new) = do
    final ← materialize digest now (events ++ e ∷ new)
    ok (record { lines = map k.dumps (e ∷ new); receipt = receipt final (length (e ∷ new)) })

  unfoldable pub plan_append :
      (List Event → Outcome (List Event)) → Option ℕ → Option String → String → Outcome Plan
  unfolding check_seq check_hash planned
  plan_append build_events_fn expected_first_seq expected_projection_hash text = do
    events ← parse_event_store k text
    check_seq expected_first_seq events
    check_hash expected_projection_hash events
    built ← build_events_fn events
    planned events (prepare_events_for_append k events built)

  unfoldable pub carried_out : String → Outcome Plan → Written Receipt
  unfolding commit
  carried_out text (raise e) = record { text = text; result = raise e }
  carried_out text (ok plan) = commit k text plan.lines plan.receipt

  unfoldable pub append_transactional :
      (List Event → Outcome (List Event)) → Option ℕ → Option String → String → Written Receipt
  unfolding carried_out
  append_transactional build_events_fn expected_first_seq expected_projection_hash text =
      carried_out text
        (plan_append build_events_fn expected_first_seq expected_projection_hash text)

-- what `verify_hash_chain` reports
pub data ChainStatus : Type 0 where
  chain_broken : Failure → ChainStatus
  unanchored : ℕ → ChainStatus
  chain_ok : Option ℕ → Option String → ℕ → ChainStatus

abbrev last_event_seq : List Event → ℕ
last_event_seq [] = 0
last_event_seq (e ∷ []) = e.event_seq
last_event_seq (e ∷ f ∷ es) = last_event_seq (f ∷ es)

module _ (k : Codec) where
  chain_status : Outcome (List Event) → ChainStatus
  chain_status (raise f) = chain_broken f
  chain_status (ok events) = elim (find_anchor events) [
    | none ↦ unanchored (last_event_seq events)
    | some a ↦
        chain_ok a.payload.anchored_through_seq a.payload.anchor_sha256 (last_event_seq events)
  ]

  unfoldable pub verify_hash_chain : String → ChainStatus
  unfolding chain_status
  verify_hash_chain text = chain_status (parse_event_store k text)

  unfoldable pub anchor_payload : String → List Event → Payload
  anchor_payload text events = record empty_payload {
    anchored_through_seq = some (last_event_seq events);
    anchor_sha256 = some (anchor_hash k (stored_lines text) (last_event_seq events));
  }

  anchored : String → Option Runner → Bool → String → Outcome (List Event) → Written (Unit {0})
  anchored now runner force text (raise f) = record { text = text; result = raise f }
  anchored now runner force text (ok events) =
      let anchor =
        make_event now runner (next_event_seq events) "orchestrator" Action.chain_anchor
          (anchor_payload text events) in
      if is_some (find_anchor events) && not force
      then record { text = text; result = raise (esaa_error Code.chain_already_anchored) }
      else append_events k text (anchor ∷ [])

  unfoldable pub init_hash_chain : String → Option Runner → Bool → String → Written (Unit {0})
  unfolding anchored
  init_hash_chain now runner force text = anchored now runner force text (parse_event_store k text)
