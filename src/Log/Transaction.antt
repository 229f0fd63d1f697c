-- ===== src/Log/Transaction.antt =====
-- When `append_transactional` changes the store.
use esaa_event_sourcing_agen.Prelude.{
  ℕ, ◌≡◌, ◌≢◌, refl, sym, ap, ◌∙◌, String, Option, List, [], ◌∷◌, ◌++◌, map, inl, inr, ◌⊎◌,
}
use esaa_event_sourcing_agen.Outcome.{Outcome, ok, raise, >>=-eq-ok, Outcome-cases}
use esaa_event_sourcing_agen.Event.{Event}
use esaa_event_sourcing_agen.Projector.{Projection, Materialized, materialize}
use esaa_event_sourcing_agen.Log.Reread.{Kept, prepare-Kept}
use esaa_event_sourcing_agen.Store.{
  Codec, Plan, Receipt, check_seq, check_hash, planned, commit, persist, carried_out, plan_append,
  parse_event_store, prepare_events_for_append, append_lines, append_transactional,
}

module _ (k : Codec) (digest : Projection → String) (now : String) where
  -- The new text is the old one with the lines of some events behind it: those built from the
  -- stored events, prepared, with a log that materializes.
  pub record IsCommitted (build : List Event → Outcome (List Event)) (expected_first_seq : Option ℕ)
      (text text' : String) : Type 0 where
    pub stored : List Event
    pub built : List Event
    pub views : Materialized
    pub parsed : parse_event_store k text ≡ ok stored
    pub is_expected : check_seq expected_first_seq stored ≡ ok tt
    pub from_stored : build stored ≡ ok built
    pub projects :
        materialize digest now (stored ++ prepare_events_for_append k stored built) ≡ ok views
    pub written : text' ≡ append_lines text (map k.dumps (prepare_events_for_append k stored built))

  planned-lines :
      (events new : List Event) (plan : Plan)
      → planned k digest now events new ≡ ok plan
      → (plan.lines ≡ map k.dumps new)
        × ((plan.lines ≡ [])
            ⊎ ((v : Materialized) × (materialize digest now (events ++ new) ≡ ok v)))
  unfolding planned
  planned-lines events [] plan h =
      let (v, p, q) = >>=-eq-ok (materialize digest now events) _ h in
      let l : plan.lines ≡ [] = sym (ap (λ o. elim o [ ok x ↦ x.lines | raise f ↦ [] ]) q) in
      (l, inl l)
  planned-lines events (e ∷ new) plan h =
      let (v, p, q) = >>=-eq-ok (materialize digest now (events ++ e ∷ new)) _ h in
      (sym (ap (λ o. elim o [ ok x ↦ x.lines | raise f ↦ [] ]) q), inr (v, p))

  commit-text :
      (text : String) (plan : Plan)
      → ((plan.lines ≡ []) × ((commit k text plan.lines plan.receipt).text ≡ text))
        ⊎ ((commit k text plan.lines plan.receipt).text ≡ append_lines text plan.lines)
  unfolding commit persist
  commit-text text plan = by_lines plan.lines
    where
      by_lines :
          (ls : List String)
          → ((ls ≡ []) × ((commit k text ls plan.receipt).text ≡ text))
            ⊎ ((commit k text ls plan.receipt).text ≡ append_lines text ls)
      by_lines [] = inl (refl, refl)
      by_lines (l ∷ ls) = inr refl

  no_lines :
      (text : String) (plan : Plan)
      → plan.lines ≡ []
      → (commit k text plan.lines plan.receipt).text ≡ text
  unfolding commit
  no_lines text plan h = rw h refl

  planned-IsCommitted :
      (build : List Event → Outcome (List Event)) (first : Option ℕ) (hash : Option String)
      (text : String) (plan : Plan)
      → plan_append k digest now build first hash text ≡ ok plan
      → ((stored built : List Event)
          → build stored ≡ ok built
          → plan.lines ≡ map k.dumps (prepare_events_for_append k stored built)
          → plan.lines ≢ [])
      → IsCommitted build first text (commit k text plan.lines plan.receipt).text
  unfolding plan_append
  planned-IsCommitted build first hash text plan h n =
      let (stored, p, h1) = >>=-eq-ok (parse_event_store k text) _ h in
      let (u1, s, h2) = >>=-eq-ok (check_seq first stored) _ h1 in
      let (u2, c, h3) = >>=-eq-ok (check_hash k digest now hash stored) _ h2 in
      let (built, b, h4) = >>=-eq-ok (build stored) _ h3 in
      let new = prepare_events_for_append k stored built in
      let (l, m) = planned-lines stored new plan h4 in
      elim m [
        | inl e ↦ absurd (n stored built b l e)
        | inr (v, q) ↦ record {
          stored = stored;
          built = built;
          views = v;
          parsed = p;
          is_expected = s;
          from_stored = b;
          projects = q;
          written = elim (commit-text text plan) [
            | inl e ↦ absurd (n stored built b l e.0)
            | inr e ↦ e ∙ ap (append_lines text) l
          ];
        }
      ]

  Kept-some : (bs ps : List Event) → Kept bs ps → bs ≢ [] → map k.dumps ps ≢ []
  Kept-some [] ps h n = absurd (n refl)
  Kept-some (b ∷ bs) [] h n = elim h [ ]
  Kept-some (b ∷ bs) (p ∷ ps) h n = λ e. cc

  -- If `append_transactional` succeeds and some event is built, then the store has it.
  pub append_transactional-stored :
      (build : List Event → Outcome (List Event)) (first : Option ℕ) (hash : Option String)
      (text : String) (r : Receipt)
      → ((stored built : List Event) → build stored ≡ ok built → built ≢ [])
      → (append_transactional k digest now build first hash text).result ≡ ok r
      → IsCommitted build first text (append_transactional k digest now build first hash text).text
  unfolding append_transactional carried_out
  append_transactional-stored build first hash text r n h =
      elim (Outcome-cases (plan_append k digest now build first hash text)) [
        | inl (f, e) ↦ absurd (cc (rw (e, carried_out) at h))
        | inr (plan, e) ↦ rw e (
            planned-IsCommitted build first hash text plan e (λ stored built b l q.
              Kept-some built (prepare_events_for_append k stored built)
                (prepare-Kept k stored built) (n stored built b) (sym l ∙ q)))
      ]

  -- If `append_transactional` changes the text of the store, then the old text parses, the next
  -- sequence number is the one expected, and the new text is the old one with the lines of the
  -- prepared events behind it; and the log with these events materializes.
  pub append_transactional-IsCommitted :
      (build : List Event → Outcome (List Event)) (first : Option ℕ) (hash : Option String)
      (text : String)
      → (append_transactional k digest now build first hash text).text ≢ text
      → IsCommitted build first text (append_transactional k digest now build first hash text).text
  unfolding append_transactional carried_out
  append_transactional-IsCommitted build first hash text n =
      elim (Outcome-cases (plan_append k digest now build first hash text)) [
        | inl (f, e) ↦ absurd (n (rw e refl))
        | inr (plan, e) ↦ rw e (
            planned-IsCommitted build first hash text plan e
              (λ stored built b l q. (rw e at n) (no_lines text plan q)))
      ]
