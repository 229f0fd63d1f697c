-- ===== src/Replay/Rule.antt =====
-- An invariant of tasks over the loop of `materialize`, that may speak of the events so far.
use mathlib.Core.List.{append_assoc, append-nil}
use esaa_event_sourcing_agen.Prelude.{◌≡◌, subst, String, inl, inr, List, [], ◌∷◌, ◌++◌, arith, All}
use esaa_event_sourcing_agen.Outcome.{ok, >>=-eq-ok}
use esaa_event_sourcing_agen.Event.{Event}
use esaa_event_sourcing_agen.Projector.{Task, State, apply_event, replay_from, replay, empty_state}
use esaa_event_sourcing_agen.Replay.Evolution.{
  Changed, TaskStep, Evolves, grown, step, IsFresh, apply_event-Evolves,
}

module _ (P : List Event → Task → Type 0)
    (fresh : (past : List Event) (t : Task) → IsFresh t → P past t)
    (keep : (past : List Event) (e : Event) (t : Task) → P past t → P (past ++ e ∷ []) t)
    (change : (past : List Event) (e : Event) (t u : Task)
      → P past t
      → Changed e.action e t u
      → P (past ++ e ∷ []) u) where
  fresh_All : (past : List Event) (ns : List Task) → All IsFresh ns → All (P past) ns
  fresh_All past [] h = tt
  fresh_All past (t ∷ ns) h = (fresh past t h.0, fresh_All past ns h.1)

  Evolves-All :
      (past : List Event) (e : Event) {ts us : List Task}
      → Evolves (TaskStep e.action e) IsFresh ts us
      → All (P past) ts
      → All (P (past ++ e ∷ [])) us
  Evolves-All past e (grown ns f) h = fresh_All (past ++ e ∷ []) ns f
  Evolves-All past e (step {t} {u} (inl p) r) h =
      (rw p (keep past e t h.0), Evolves-All past e r h.1)
  Evolves-All past e (step {t} {u} (inr c) r) h =
      (change past e t u h.0 c, Evolves-All past e r h.1)

  pub replay_from-All :
      (past : List Event) (s s' : State) (es : List Event)
      → replay_from s es ≡ ok s'
      → All (P past) s.tasks
      → All (P (past ++ es)) s'.tasks
  unfolding replay_from
  replay_from-All past s s' [] h all =
      let p : s ≡ s' = ground arith in
      rw append-nil (subst (λ (x : State). All (P past) x.tasks) p all)
  replay_from-All past s s' (e ∷ es) h all =
      let (m, one, rest) = >>=-eq-ok (apply_event s e) (λ x. replay_from x es) h in
      subst (λ l. All (P l) s'.tasks) (append_assoc past (e ∷ []) es)
        (replay_from-All (past ++ e ∷ []) m s' es rest
          (Evolves-All past e (apply_event-Evolves s m e one) all))

  pub replay-All :
      (now name : String) (s : State) (es : List Event)
      → replay now name es ≡ ok s
      → All (P es) s.tasks
  unfolding replay empty_state
  replay-All now name s es h = replay_from-All [] (empty_state now name) s es h tt
