-- ===== src/Service/Stale.antt =====
-- Nothing but the two expectations of `append_transactional` reports a stale state.
use esaa_event_sourcing_agen.Prelude.{
  ℕ, ◌≡◌, refl, String, false, Option, none, some, List, [], ◌∷◌, ◌++◌, arith, Option-cases, inl,
  inr, or_else,
}
use esaa_event_sourcing_agen.Outcome.{Outcome, ok, raise, ◌>>=◌, required}
use esaa_event_sourcing_agen.Machine.{Action, classify_transition}
use esaa_event_sourcing_agen.Event.{Event, Lesson, Payload}
use esaa_event_sourcing_agen.Projector.{
  Task, State, Projection, append_to, new_task, update_task, ensure_owner, check_transition,
  claim_task, complete_task, review_task, refuse_duplicate, apply_issue_report, apply_hotfix_create,
  apply_issue_resolve, on_task, apply_task_create, dispatch, apply_event, replay_from, replay,
  lessons_by_enforcement, lessons_view, materialize,
}
use esaa_event_sourcing_agen.Store.{
  RawEvent, Codec, Plan, Receipt, planned, commit, persist, carried_out, plan_append, check_seq,
  check_hash, append_lines, append_transactional, prepare_events_for_append, compute_event_hash,
  find_anchor, validate_links, validate_anchor, validate_hash_chain, stored_lines, decoded,
  check_event, parse_lines, parse_event_store, verify_appended_lines, validate_runner_block,
}
use esaa_event_sourcing_agen.Service.{is_stale}

bind_fresh :
    {A B : Type 0} (m : Outcome A) (next : A → Outcome B)
    → is_stale m ≡ false
    → ((a : A) → is_stale (next a) ≡ false)
    → is_stale (m >>= next) ≡ false
unfolding is_stale
bind_fresh (ok a) next h n = n a
bind_fresh (raise f) next h n = ground (arith, h)

required_fresh : {A : Type 0} (o : Option A) → is_stale (required o) ≡ false
unfolding is_stale
required_fresh none = refl
required_fresh (some a) = refl

check_event_fresh :
    (seen : List String) (n : ℕ) (raw : RawEvent) → is_stale (check_event seen n raw) ≡ false
unfolding check_event is_stale validate_runner_block
check_event_fresh seen n raw = ground arith

decoded_fresh : (o : Option RawEvent) → is_stale (decoded o) ≡ false
unfolding decoded is_stale
decoded_fresh o = ground arith

module _ (k : Codec) where
  parse_lines_fresh :
      (seen : List String) (n : ℕ) (lines : List String)
      → is_stale (parse_lines k seen n lines) ≡ false
  unfolding parse_lines is_stale
  parse_lines_fresh seen n [] = refl
  parse_lines_fresh seen n (l ∷ ls) =
      bind_fresh (decoded (k.loads l)) _ (decoded_fresh (k.loads l)) (λ raw.
        bind_fresh (check_event seen n raw) _ (check_event_fresh seen n raw) (λ e.
          bind_fresh (parse_lines k (e.event_id ∷ seen) e.event_seq ls) _
            (parse_lines_fresh (e.event_id ∷ seen) e.event_seq ls) (λ es. refl)))

  validate_links_fresh :
      (n : ℕ) (prev : String) (es : List Event) → is_stale (validate_links k n prev es) ≡ false
  unfolding validate_links is_stale
  validate_links_fresh n prev [] = refl
  validate_links_fresh n prev (e ∷ es) =
      ground
        (arith, validate_links_fresh n prev es, validate_links_fresh n (compute_event_hash k e) es)

  validate_hash_chain_fresh :
      (lines : List String) (es : List Event) → is_stale (validate_hash_chain k lines es) ≡ false
  unfolding validate_hash_chain validate_anchor is_stale
  validate_hash_chain_fresh lines es = elim (Option-cases (find_anchor es)) [
    | inl e ↦ rw (e, validate_hash_chain) refl
    | inr (a, e) ↦
        rw (e, validate_hash_chain)
          (ground (arith, validate_links_fresh a.event_seq (or_else a.payload.anchor_sha256 "") es))
  ]

  parse_event_store_fresh : (text : String) → is_stale (parse_event_store k text) ≡ false
  unfolding parse_event_store is_stale
  parse_event_store_fresh text =
      bind_fresh (parse_lines k [] 0 (stored_lines text)) _
        (parse_lines_fresh [] 0 (stored_lines text))
        (λ es.
          bind_fresh (validate_hash_chain k (stored_lines text) es) _
            (validate_hash_chain_fresh (stored_lines text) es) (λ u. refl))

update_task_fresh :
    (task_id : String) (f : Task → Outcome Task) (ts : List Task)
    → ((t : Task) → is_stale (f t) ≡ false)
    → is_stale (update_task task_id f ts) ≡ false
unfolding update_task is_stale
update_task_fresh task_id f [] h = refl
update_task_fresh task_id f (t ∷ ts) h = ground (arith, h t, update_task_fresh task_id f ts h)

claim_task_fresh : (e : Event) (t : Task) → is_stale (claim_task e t) ≡ false
unfolding claim_task check_transition classify_transition is_stale
claim_task_fresh e t = ground arith

complete_task_fresh : (e : Event) (t : Task) → is_stale (complete_task e t) ≡ false
unfolding complete_task check_transition classify_transition ensure_owner is_stale
complete_task_fresh e t = ground arith

review_task_fresh : (e : Event) (t : Task) → is_stale (review_task e t) ≡ false
unfolding review_task check_transition classify_transition ensure_owner is_stale
review_task_fresh e t = ground arith

new_task_fresh : (p : Payload) → is_stale (new_task p) ≡ false
unfolding new_task is_stale
new_task_fresh p = ground arith

module _ (s : State) (e : Event) where
  on_task_fresh :
      (f : Task → Outcome Task)
      → ((t : Task) → is_stale (f t) ≡ false)
      → is_stale (on_task f s e) ≡ false
  unfolding on_task is_stale
  on_task_fresh f h =
      bind_fresh (required e.payload.task_id) _ (required_fresh e.payload.task_id)
        (λ i. bind_fresh (update_task i f s.tasks) _ (update_task_fresh i f s.tasks h) (λ ts. refl))

  issue_report_fresh : is_stale (apply_issue_report s e) ≡ false
  unfolding apply_issue_report is_stale
  issue_report_fresh = ground arith

  issue_resolve_fresh : is_stale (apply_issue_resolve s e) ≡ false
  unfolding apply_issue_resolve is_stale
  issue_resolve_fresh = ground arith

  task_create_fresh : is_stale (apply_task_create s e) ≡ false
  unfolding apply_task_create is_stale
  task_create_fresh = bind_fresh (new_task e.payload) _ (new_task_fresh e.payload) (λ t. refl)

  duplicate_fresh : (i : String) → is_stale (refuse_duplicate i s.tasks) ≡ false
  unfolding refuse_duplicate is_stale
  duplicate_fresh i = ground arith

  hotfix_create_fresh : is_stale (apply_hotfix_create s e) ≡ false
  unfolding apply_hotfix_create is_stale
  hotfix_create_fresh =
      bind_fresh (required e.payload.task_id) _ (required_fresh e.payload.task_id) (λ i.
        bind_fresh (refuse_duplicate i s.tasks) _ (duplicate_fresh i)
          (λ u. bind_fresh (new_task e.payload) _ (new_task_fresh e.payload) (λ t. refl)))

  dispatch_fresh : (a : Action) → is_stale (dispatch a s e) ≡ false
  unfolding dispatch is_stale
  dispatch_fresh Action.claim = on_task_fresh (claim_task e) (claim_task_fresh e)
  dispatch_fresh Action.complete = on_task_fresh (complete_task e) (complete_task_fresh e)
  dispatch_fresh Action.review = on_task_fresh (review_task e) (review_task_fresh e)
  dispatch_fresh Action.task_create = task_create_fresh
  dispatch_fresh Action.hotfix_create = hotfix_create_fresh
  dispatch_fresh Action.issue_report = issue_report_fresh
  dispatch_fresh Action.issue_resolve = issue_resolve_fresh
  dispatch_fresh Action.view_mutate = ground arith
  dispatch_fresh a = ground arith

  apply_event_fresh : is_stale (apply_event s e) ≡ false
  unfolding apply_event is_stale
  apply_event_fresh = bind_fresh (dispatch e.action s e) _ (dispatch_fresh e.action) (λ s'. refl)

replay_from_fresh : (s : State) (es : List Event) → is_stale (replay_from s es) ≡ false
unfolding replay_from is_stale
replay_from_fresh s [] = refl
replay_from_fresh s (e ∷ es) =
    bind_fresh (apply_event s e) _ (apply_event_fresh s e) (λ s'. replay_from_fresh s' es)

by_enforcement_fresh :
    (out : List (String × List String)) (ls : List Lesson)
    → is_stale (lessons_by_enforcement out ls) ≡ false
unfolding lessons_by_enforcement is_stale
by_enforcement_fresh out [] = refl
by_enforcement_fresh out (l ∷ ls) =
    bind_fresh (required l.enforcement.applies_to) _ (required_fresh l.enforcement.applies_to)
      (λ a. by_enforcement_fresh (append_to a l.lesson_id out) ls)

lessons_view_fresh : (s : State) → is_stale (lessons_view s) ≡ false
unfolding lessons_view is_stale
lessons_view_fresh s =
    bind_fresh (lessons_by_enforcement [] s.lessons) _ (by_enforcement_fresh [] s.lessons)
      (λ l. refl)

pub materialize_fresh :
    (digest : Projection → String) (now : String) (es : List Event)
    → is_stale (materialize digest now es) ≡ false
unfolding materialize replay is_stale
materialize_fresh digest now es =
    bind_fresh (replay now "esaa-core" es) _ (replay_from_fresh _ es)
      (λ s. bind_fresh (lessons_view s) _ (lessons_view_fresh s) (λ l. refl))

verify_appended_lines_fresh :
    (text : String) (lines : List String) → is_stale (verify_appended_lines text lines) ≡ false
unfolding verify_appended_lines is_stale
verify_appended_lines_fresh text [] = refl
verify_appended_lines_fresh text (l ∷ ls) = ground arith

module _ (k : Codec) (digest : Projection → String) (now : String) where
  planned_fresh : (events new : List Event) → is_stale (planned k digest now events new) ≡ false
  unfolding planned is_stale
  planned_fresh events [] =
      bind_fresh (materialize digest now events) _ (materialize_fresh digest now events) (λ v. refl)
  planned_fresh events (e ∷ new) =
      bind_fresh (materialize digest now (events ++ e ∷ new)) _
        (materialize_fresh digest now (events ++ e ∷ new)) (λ v. refl)

  persist_fresh :
      (text : String) (lines : List String) (r : Receipt)
      → is_stale (persist k text lines r).result ≡ false
  unfolding persist is_stale
  persist_fresh text lines r =
      bind_fresh (verify_appended_lines (append_lines text lines) lines) _
        (verify_appended_lines_fresh (append_lines text lines) lines) (λ u. refl)

  pub carried_out_fresh :
      (text : String) (o : Outcome Plan)
      → is_stale o ≡ false
      → is_stale (carried_out k digest now text o).result ≡ false
  unfolding carried_out commit is_stale
  carried_out_fresh text (raise f) h = ground (arith, h)
  carried_out_fresh text (ok plan) h = by_lines plan.lines
    where
      by_lines : (ls : List String) → is_stale (commit k text ls plan.receipt).result ≡ false
      by_lines [] = refl
      by_lines (l ∷ ls) = persist_fresh text (l ∷ ls) plan.receipt

  -- Without expectations, and if building does not raise, `append_transactional` never reports a
  -- stale state.
  pub append_transactional_fresh :
      (build : List Event → List Event) (text : String)
      → is_stale
          (append_transactional k digest now (λ current. ok (build current)) none none text).result
        ≡ false
  unfolding append_transactional plan_append check_seq check_hash is_stale
  append_transactional_fresh build text =
      carried_out_fresh text
        (plan_append k digest now (λ current. ok (build current)) none none text)
        (bind_fresh (parse_event_store k text) _ (parse_event_store_fresh k text)
          (λ events. planned_fresh events (prepare_events_for_append k events (build events))))
