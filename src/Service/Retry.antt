-- ===== src/Service/Retry.antt =====
-- `_append_events_transactionally` of src/esaa/service_core.py. The time it sleeps between two
-- attempts is left out.
use esaa_event_sourcing_agen.Prelude.{
  ℕ, zero, suc, String, Bool, true, false, Option, none, some, List, [], ◌∷◌, if◌then◌else◌, join,
  padded,
}
use esaa_event_sourcing_agen.Codes.{Code}
use esaa_event_sourcing_agen.Outcome.{Outcome, ok, raise, esaa_error}
use esaa_event_sourcing_agen.Event.{Event}
use esaa_event_sourcing_agen.Projector.{Projection, Materialized, materialize}
use esaa_event_sourcing_agen.Store.{Codec, Written, Receipt, next_event_seq, append_transactional}

-- `exc.code in {"STALE_STATE_SEQ", "STALE_STATE_HASH"}`
unfoldable pub is_stale : {A : Type 0} → Outcome A → Bool
is_stale (raise (esaa_error Code.stale_state_seq)) = true
is_stale (raise (esaa_error Code.stale_state_hash)) = true
is_stale _ = false

-- the loop of `build_events`, from the number of the next event
unfoldable pub renumber : ℕ → List Event → List Event
renumber seq [] = []
renumber seq (e ∷ es) =
    record e { event_seq = seq; event_id = join "EV-" (padded 8 seq) } ∷ renumber (suc seq) es

unfoldable pub build_events : List Event → List Event → List Event
build_events new current = renumber (next_event_seq current) new

-- What the attempts leave behind, and how many there were.
pub record Tried : Type 0 where
  pub attempts : ℕ
  pub written : Written Receipt

module _ (k : Codec) (digest : Projection → String) (now : String) (others : ℕ → String → String)
    (new : List Event) where
  -- `others n` is what becomes of the store's text before attempt `n`.
  unfoldable pub attempt : ℕ → Option ℕ → Option String → String → Written Receipt
  attempt n first hash text =
      append_transactional k digest now (λ current. ok (build_events new current)) first hash
        (others n text)

  -- The `while` loop at attempt `n`, with so many retries left. Only the first attempt expects
  -- anything of the store.
  unfoldable pub retry : ℕ → ℕ → Option ℕ → Option String → String → Tried
  retry zero n first hash text = record { attempts = suc n; written = attempt n first hash text }
  retry (suc left) n first hash text =
      let tried = attempt n first hash text in
      let next = retry left (suc n) none none tried.text in
      if is_stale tried.result then next else record { attempts = suc n; written = tried }

  -- the attempts, once the views of the base events are known
  unfoldable pub expecting : ℕ → List Event → String → Outcome Materialized → Tried
  expecting max_retries base text (raise f) = record {
    attempts = 0;
    written = record { text = text; result = raise f };
  }
  expecting max_retries base text (ok views) =
      retry max_retries 0 (some (next_event_seq base)) (some views.roadmap.projection_hash_sha256)
        text

  unfoldable pub append_events_transactionally : ℕ → List Event → String → Tried
  unfolding expecting
  append_events_transactionally max_retries base text =
      expecting max_retries base text (materialize digest now base)
