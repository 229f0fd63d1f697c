-- ===== src/Replay/Last.antt =====
-- What the last event of a log does to the views of `materialize` in src/esaa/projector.py.
use mathlib.Core.List.{append_assoc}
use esaa_event_sourcing_agen.Prelude.{◌≡◌, refl, sym, ap, subst, ◌∙◌, String, List, [], ◌∷◌, ◌++◌}
use esaa_event_sourcing_agen.Outcome.{Outcome, ok, raise, ◌>>=◌, >>=-eq-ok}
use esaa_event_sourcing_agen.Event.{Event}
use esaa_event_sourcing_agen.Projector.{
  State, Projection, Materialized, apply_event, replay_from, replay, lessons_view, roadmap_view,
  materialize,
}

bind_split :
    (o : Outcome State) (f g h : State → Outcome State)
    → ((s : State) → f s ≡ (g s >>= h))
    → (o >>= f) ≡ ((o >>= g) >>= h)
bind_split (raise failure) f g h same = refl
bind_split (ok s) f g h same = same s

pub replay_from-append :
    (s : State) (es fs : List Event)
    → replay_from s (es ++ fs) ≡ (replay_from s es >>= λ s'. replay_from s' fs)
unfolding replay_from
replay_from-append s [] fs = refl
replay_from-append s (e ∷ es) fs =
    bind_split (apply_event s e) _ _ _ (λ s'. replay_from-append s' es fs)

module _ (digest : Projection → String) (now : String) where
  -- The state that the views show.
  pub record IsShown (es : List Event) (views : Materialized) : Type 0 where
    pub state : State
    pub replayed : replay now "esaa-core" es ≡ ok state
    pub shown : views.roadmap ≡ roadmap_view digest state

  pub materialize-IsShown :
      (es : List Event) (views : Materialized)
      → materialize digest now es ≡ ok views
      → IsShown es views
  unfolding materialize
  materialize-IsShown es views h =
      let (s, r, h1) = >>=-eq-ok (replay now "esaa-core" es) _ h in
      let (l, v, h2) = >>=-eq-ok (lessons_view s) _ h1 in
      record {
        state = s;
        replayed = r;
        shown = sym (ap (λ o. elim o [ ok x ↦ x.roadmap | raise f ↦ roadmap_view digest s ]) h2);
      }

  -- The views before and behind the last event.
  last_step :
      (es : List Event) (e : Event) (before after : Materialized)
      → materialize digest now es ≡ ok before
      → materialize digest now (es ++ e ∷ []) ≡ ok after
      → (s : State) × (s' : State) × (apply_event s e ≡ ok s')
        × (before.roadmap ≡ roadmap_view digest s)
        × (after.roadmap ≡ roadmap_view digest s')
  unfolding replay replay_from
  last_step es e before after h h' =
      let b = materialize-IsShown es before h in
      let a = materialize-IsShown (es ++ e ∷ []) after h' in
      let split = sym (replay_from-append _ es (e ∷ [])) ∙ a.replayed in
      let (s, p, q) = >>=-eq-ok (replay_from _ es) _ split in
      let (s', p', q') = >>=-eq-ok (apply_event s e) _ q in
      let same : s ≡ b.state = ap (λ o. elim o [ ok x ↦ x | raise f ↦ s ]) (sym p ∙ b.replayed) in
      let same' : s' ≡ a.state = ap (λ o. elim o [ ok x ↦ x | raise f ↦ s' ]) q' in
      (
        s,
        s',
        p',
        b.shown ∙ ap (roadmap_view digest) (sym same),
        a.shown ∙ ap (roadmap_view digest) (sym same'),
      )

  -- the same behind two parts of a log
  pub last_of_parts :
      (es fs : List Event) (e : Event) (before after : Materialized)
      → materialize digest now (es ++ fs) ≡ ok before
      → materialize digest now (es ++ (fs ++ e ∷ [])) ≡ ok after
      → (s : State) × (s' : State) × (apply_event s e ≡ ok s')
        × (before.roadmap ≡ roadmap_view digest s)
        × (after.roadmap ≡ roadmap_view digest s')
  last_of_parts es fs e before after h h' =
      last_step (es ++ fs) e before after h
        (subst (λ x. materialize digest now x ≡ ok after) (sym (append_assoc es fs (e ∷ []))) h')
