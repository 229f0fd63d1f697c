-- ===== src/Store/Chain.antt =====
-- The hash chain of src/esaa/store.py: hashes, the anchor, validation, and the events prepared for
-- an append.
use esaa_event_sourcing_agen.Prelude.{
  ℕ, zero, suc, ◌+◌, String, Bool, true, false, ◌&&◌, Option, none, some, List, [], ◌∷◌, ◌++◌, ◌==◌,
  if◌then◌else◌, or_else, truthy, ltb, leb, eqb, join,
}
use esaa_event_sourcing_agen.Codes.{Code}
use esaa_event_sourcing_agen.Outcome.{Outcome, ok, ◌>>◌, guard}
use esaa_event_sourcing_agen.Machine.{Action}
use esaa_event_sourcing_agen.Event.{Event}
use esaa_event_sourcing_agen.Store.Format.{Codec}

abbrev pub is_anchor : Action → Bool
is_anchor Action.chain_anchor = true
is_anchor _ = false

-- `_find_anchor`: the last one
unfoldable pub find_anchor : List Event → Option Event
find_anchor [] = none
find_anchor (e ∷ es) = elim (find_anchor es) [
  | some a ↦ some a
  | none ↦ if is_anchor e.action then some e else none
]

abbrev pub take_lines : ℕ → List String → List String
take_lines zero ls = []
take_lines (suc n) [] = []
take_lines (suc n) (l ∷ ls) = l ∷ take_lines n ls

-- `"\n".join(lines) + "\n"`
abbrev pub joined : List String → String
joined [] = "\n"
joined (l ∷ []) = join l "\n"
joined (l ∷ m ∷ ls) = join l (join "\n" (joined (m ∷ ls)))

module _ (k : Codec) where
  unfoldable pub compute_event_hash : Event → String
  compute_event_hash e = k.sha256 (k.canonical (record e { event_hash = none }))

  unfoldable pub anchor_hash : List String → ℕ → String
  anchor_hash lines through_seq =
      if leb through_seq 0 then k.sha256 "" else k.sha256 (joined (take_lines through_seq lines))

abbrev pub is_same : Option String → String → Bool
is_same none s = false
is_same (some t) s = t == s

abbrev pub follows : ℕ → Option ℕ → Bool
follows seq none = eqb seq 0  -- the default -1
follows seq (some through) = eqb seq (through + 1)

module _ (k : Codec) where
  -- the loop over the events behind the anchor
  unfoldable pub validate_links : ℕ → String → List Event → Outcome (Unit {0})
  validate_links anchor_seq prev_hash [] = ok tt
  validate_links anchor_seq prev_hash (e ∷ es) =
      let skipped = validate_links anchor_seq prev_hash es in
      let linked = validate_links anchor_seq (compute_event_hash k e) es in
      if leb e.event_seq anchor_seq then skipped else (do
        guard (is_same e.prev_event_hash prev_hash) Code.chain_broken
        guard (is_same e.event_hash (compute_event_hash k e)) Code.chain_broken
        linked)

  unfoldable pub validate_anchor : List String → List Event → Event → Outcome (Unit {0})
  validate_anchor lines events anchor = do
    let through = or_else anchor.payload.anchored_through_seq 0
    let declared = or_else anchor.payload.anchor_sha256 ""
    guard (truthy anchor.payload.anchor_sha256) Code.chain_broken
    guard (follows anchor.event_seq anchor.payload.anchored_through_seq) Code.chain_broken
    guard (anchor_hash k lines through == declared) Code.chain_broken
    validate_links anchor.event_seq declared events

  unfoldable pub validate_hash_chain : List String → List Event → Outcome (Unit {0})
  unfolding validate_anchor
  validate_hash_chain lines events = elim (find_anchor events) [
    | none ↦ ok tt
    | some anchor ↦ validate_anchor lines events anchor
  ]

-- the last `event_hash` behind the anchor, or else the anchor's own hash
unfoldable pub latest_hash : ℕ → Option String → List Event → Option String
latest_hash anchor_seq prev_hash [] = prev_hash
latest_hash anchor_seq prev_hash (e ∷ es) =
    latest_hash anchor_seq
      (if ltb anchor_seq e.event_seq && truthy e.event_hash then e.event_hash else prev_hash) es

is_review : Action → Bool
is_review Action.review = true
is_review _ = false

-- The reviewer's role moves from the payload to the event.
unfoldable pub lift_role : Event → Event
unfolding is_review
lift_role e = elim e.payload.reviewer_role [
  | none ↦ e
  | some role ↦
      if is_review e.action
      then record e {
        reviewer_role = some role;
        payload = record e.payload { reviewer_role = none };
      }
      else e
]

module _ (k : Codec) where
  unfoldable pub link : Option String → Event → Event
  link prev_hash e =
      let linked = record e { prev_event_hash = prev_hash } in
      record linked { event_hash = some (compute_event_hash k linked) }

  unfoldable pub link_events : ℕ → Option String → List Event → List Event
  unfolding link
  link_events anchor_seq prev_hash [] = []
  link_events anchor_seq prev_hash (e ∷ es) =
      let e' = lift_role e in
      let plain = e' ∷ link_events anchor_seq prev_hash es in
      let linked = link prev_hash e' in
      let chained = linked ∷ link_events anchor_seq linked.event_hash es in
      if ltb anchor_seq e.event_seq then chained else plain

abbrev pub lift_roles : List Event → List Event
lift_roles [] = []
lift_roles (e ∷ es) = lift_role e ∷ lift_roles es

module _ (k : Codec) where
  unfoldable pub prepare_events_for_append : List Event → List Event → List Event
  prepare_events_for_append current new = elim (find_anchor (current ++ new)) [
    | none ↦ lift_roles new
    | some anchor ↦
        link_events k anchor.event_seq
          (latest_hash anchor.event_seq (some (or_else anchor.payload.anchor_sha256 "None"))
            (current ++ new))
          new
  ]
