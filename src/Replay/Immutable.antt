-- ===== src/Replay/Immutable.antt =====
-- A task that is done stays as it is.
use esaa_event_sourcing_agen.Prelude.{
  ◌≡◌, subst, ℕ, zero, suc, inl, inr, Option, some, List, [], ◌∷◌, arith, get_elem?,
}
use esaa_event_sourcing_agen.Outcome.{ok, >>=-eq-ok}
use esaa_event_sourcing_agen.Machine.{Status, Action, Decision, next_status}
use esaa_event_sourcing_agen.Event.{Event}
use esaa_event_sourcing_agen.Projector.{Task, State, apply_event, replay_from}
use esaa_event_sourcing_agen.Replay.Evolution.{
  TaskStep, Evolves, grown, step, IsFresh, apply_event-Evolves,
}

done-not_moved :
    (a : Action) (d : Option Decision) (s r : Status)
    → s ≡ Status.done
    → next_status s a d ≡ some r
    → ⊥
unfolding next_status
done-not_moved a d s r p h = ground arith

Evolves-done :
    (e : Event) {ts us : List Task} (i : ℕ) (t : Task)
    → Evolves (TaskStep e.action e) IsFresh ts us
    → t.status ≡ Status.done
    → get_elem? ts i ≡ some t
    → get_elem? us i ≡ some t
Evolves-done e i t (grown ns f) d h = cc
Evolves-done e zero t (step (inl p) r) d h = cc
Evolves-done e zero t (step {t = x} {u} (inr c) r) d h =
    absurd (done-not_moved e.action e.payload.decision x.status u.status (ground arith) c.moved)
Evolves-done e (suc i) t (step x r) d h = Evolves-done e i t r d h

-- Once a task is done, every further replay that succeeds leaves that very task, all its fields
-- included, in its place in the list.
pub done_is_immutable_lem :
    (s s' : State) (es : List Event) (i : ℕ) (t : Task)
    → replay_from s es ≡ ok s'
    → get_elem? s.tasks i ≡ some t
    → t.status ≡ Status.done
    → get_elem? s'.tasks i ≡ some t
unfolding replay_from
done_is_immutable_lem s s' [] i t h at d =
    let p : s ≡ s' = ground arith in subst (λ (x : State). get_elem? x.tasks i ≡ some t) p at
done_is_immutable_lem s s' (e ∷ es) i t h at d =
    let (m, one, rest) = >>=-eq-ok (apply_event s e) (λ x. replay_from x es) h in
    done_is_immutable_lem m s' es i t rest (Evolves-done e i t (apply_event-Evolves s m e one) d at)
      d
