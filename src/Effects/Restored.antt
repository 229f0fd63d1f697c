-- ===== src/Effects/Restored.antt =====
-- What `recover_file_effects` writes, and what it finds when it is called again.
use esaa_event_sourcing_agen.Prelude.{
  ◌≡◌, refl, sym, ap, subst, ◌∙◌, ◌⊎◌, String, Bool, true, false, ◌==◌, eq_iff, eq_refl, Option,
  some, List, [], ◌∷◌, ◌++◌, All, or_else, lookup, put, lookup-put, lookup-put_self, Bool-cases,
  inl, inr,
}
use esaa_event_sourcing_agen.Prelude.Sorting.{sort_by}
use esaa_event_sourcing_agen.Prelude.Paths.{at_root}
use esaa_event_sourcing_agen.Event.{Effect, Event}
use esaa_event_sourcing_agen.Effects.{
  Disk, Artifact, Archive, Settled, Recovered, read_artifact, latest_by_path, final_file,
  is_applied, settled_at, settled_rel, settled_artifact, settle, record_settled, recover_each,
  recover_file_effects,
}
use esaa_event_sourcing_agen.Effects.Verified.{
  IsVerified, Names, settle-IsVerified, settled_artifact-IsPlaced, order-after_sha256,
}
use esaa_event_sourcing_agen.Effects.Latest.{Logged, sorted-Logged}

module _ (k : Archive) (external_final : Artifact → Option String) (root : String) where
  -- The path holds the content of an artifact that an effect of the list names. It was read when the
  -- effects before this one were recovered, its own hash is right, its `after_sha256` is the hash of
  -- the content, and it names the path.
  pub record IsRestored (dry_run : Bool) (effects : List (String × Effect)) (start : Recovered)
      (path : String) (o : Option String) : Type 0 where
    pub earlier : List (String × Effect)
    pub later : List (String × Effect)
    pub name : String
    pub effect : Effect
    pub rel_path : String
    pub content : String
    pub division : effects ≡ earlier ++ (name, effect) ∷ later
    pub verified :
        IsVerified k external_final root
          (recover_each k external_final root dry_run earlier start).disk
          effect
          rel_path
          path
          content
    pub same_hash : verified.artifact.after_sha256 ≡ some (k.sha256 content)
    pub is_content : o ≡ some content

  -- The path is as before, or it is restored, and then this is no dry run.
  abbrev pub KeptOrRestored :
      Bool → List (String × Effect) → Recovered → String → Option String → Type 0
  KeptOrRestored dry_run effects start path after =
      (after ≡ lookup path start.disk)
      ⊎ ((dry_run ≡ false) × IsRestored dry_run effects start path after)

  verified-IsRestored :
      (dry_run : Bool) (p : String) (e : Effect) (effects : List (String × Effect)) (r : Recovered)
      (rel path content : String)
      → IsVerified k external_final root r.disk e rel path content
      → IsRestored dry_run ((p, e) ∷ effects) r path (some content)
  unfolding recover_each
  verified-IsRestored dry_run p e effects r rel path content v = record {
    earlier = [];
    later = effects;
    name = p;
    effect = e;
    rel_path = rel;
    content = content;
    division = refl;
    verified = v;
    same_hash =
        order-after_sha256 k external_final root v.artifact v.in_order
        ∙ ap (λ x. some (k.sha256 x)) v.has_content;
    is_content = refl;
  }

  recorded :
      (dry_run : Bool) (p path : String) (e : Effect) (effects : List (String × Effect))
      (s : Settled) (r : Recovered)
      → ((rel final content : String)
          → s ≡ Settled.to_write rel final content
          → IsVerified k external_final root r.disk e rel final content)
      → KeptOrRestored dry_run
          ((p, e) ∷ effects)
          r
          path
          (lookup path (record_settled k external_final root dry_run p s r).disk)
  unfolding record_settled
  recorded dry_run p path e effects (Settled.applied rel) r h = inl refl
  recorded dry_run p path e effects Settled.failed r h = inl refl
  recorded true p path e effects (Settled.to_write rel final content) r h = inl refl
  recorded false p path e effects (Settled.to_write rel final content) r h =
      elim (Bool-cases (final == path)) [
        | inl q ↦ inr (
          refl,
          subst (IsRestored false ((p, e) ∷ effects) r path)
              (sym (lookup-put final path content r.disk ∙ rw q refl))
              (verified-IsRestored false p e effects r rel path content (
                subst (λ x. IsVerified k external_final root r.disk e rel x content)
                  ((eq_iff final path).0 q) (h rel final content refl))),
        )
        | inr q ↦ inl (lookup-put final path content r.disk ∙ rw q refl)
      ]

  later-IsRestored :
      (dry_run : Bool) (p path : String) (e : Effect) (effects : List (String × Effect))
      (r : Recovered) (o : Option String)
      → IsRestored dry_run effects
          (record_settled k external_final root dry_run p (settle k external_final root r.disk e) r)
          path
          o
      → IsRestored dry_run ((p, e) ∷ effects) r path o
  unfolding recover_each
  later-IsRestored dry_run p path e effects r o d = record {
    earlier = (p, e) ∷ d.earlier;
    later = d.later;
    name = d.name;
    effect = d.effect;
    rel_path = d.rel_path;
    content = d.content;
    division = ap (λ es. (p, e) ∷ es) d.division;
    verified = d.verified;
    same_hash = d.same_hash;
    is_content = d.is_content;
  }

  recover_each-paths :
      (dry_run : Bool) (path : String) (effects : List (String × Effect)) (r : Recovered)
      → KeptOrRestored dry_run effects r path
          (lookup path (recover_each k external_final root dry_run effects r).disk)
  unfolding recover_each
  recover_each-paths dry_run path [] r = inl refl
  recover_each-paths dry_run path ((p, e) ∷ effects) r =
      let s = settle k external_final root r.disk e in
      let next = record_settled k external_final root dry_run p s r in
      elim (recover_each-paths dry_run path effects next) [
        | inr (real, done) ↦ inr (real, later-IsRestored dry_run p path e effects r _ done)
        | inl same ↦
            elim (recorded dry_run p path e effects s r
              (settle-IsVerified k external_final root r.disk e)) [
                | inl kept ↦ inl (same ∙ kept)
                | inr (real, done) ↦
                    inr (real, subst (IsRestored dry_run ((p, e) ∷ effects) r path) (sym same) done)
              ]
      ]

  abbrev pub start_on : Disk → Recovered
  start_on disk = record { disk = disk; recovered = []; already_applied = []; errors = [] }

  -- After `recover_file_effects` each path is as it was, or this is no dry run and the path holds the
  -- content of an artifact: an effect of an `orchestrator.file.write` event of the log names the
  -- artifact, which was read when the effects before this one were recovered; its own hash is right,
  -- its `after_sha256` is the hash of the content, and the path is the one that it names.
  pub recover_file_effects-paths :
      (dry_run : Bool) (events : List Event) (disk : Disk) (path : String)
      → KeptOrRestored dry_run
          (sort_by (λ kv. kv.0) (latest_by_path [] events))
          (start_on disk)
          path
          (lookup path (recover_file_effects k external_final root dry_run events disk).disk)
        × All (Logged events) (sort_by (λ kv. kv.0) (latest_by_path [] events))
  unfolding recover_file_effects
  recover_file_effects-paths dry_run events disk path = (
    recover_each-paths dry_run path (sort_by (λ kv. kv.0) (latest_by_path [] events))
        (start_on disk),
    sorted-Logged events,
  )

  reread :
      (path final content : String) (disk : Disk)
      → (final == at_root root path) ≡ false
      → read_artifact k root path (put final content disk) ≡ read_artifact k root path disk
  unfolding read_artifact
  reread path final content disk h =
      let same : lookup (at_root root path) (put final content disk)
          ≡ lookup (at_root root path) disk =
        lookup-put final (at_root root path) content disk ∙ rw h refl in
      rw (same, read_artifact) refl

  applied_at :
      (disk : Disk) (a : Artifact) (rel final content : String)
      → final_file k external_final root a rel ≡ some final
      → a.after_sha256 ≡ some (k.sha256 content)
      → settled_rel k external_final root (put final content disk) a rel ≡ Settled.applied rel
  unfolding settled_rel settled_at is_applied
  applied_at disk a rel final content f h =
      rw (f, settled_rel, lookup-put_self final content disk, h, eq_refl (k.sha256 content)) refl

  named_artifact :
      (disk : Disk) (a : Artifact) (rel : String)
      → Names k external_final root a rel
      → settled_artifact k external_final root disk a ≡ settled_rel k external_final root disk a rel
  unfolding settled_artifact
  named_artifact disk a rel (path, e, q) = rw (e, q, settled_artifact) refl

  -- If an effect is to write a file, which is not the file of its artifact, then once this is written
  -- the effect counts as applied.
  pub settle-again :
      (disk : Disk) (e : Effect) (rel final content : String)
      → settle k external_final root disk e ≡ Settled.to_write rel final content
      → (final == at_root root (or_else e.artifact_path "")) ≡ false
      → settle k external_final root (put final content disk) e ≡ Settled.applied rel
  unfolding settle
  settle-again disk e rel final content h n =
      let v = settle-IsVerified k external_final root disk e rel final content h in
      let (names, placed) =
        settled_artifact-IsPlaced k external_final root disk v.artifact rel final content
          (rw (v.was_read, settle) at h) in
      let read = reread (or_else e.artifact_path "") final content disk n ∙ v.was_read in
      rw (read, settle, named_artifact (put final content disk) v.artifact rel names)
        (applied_at disk v.artifact rel final content v.has_place (
          order-after_sha256 k external_final root v.artifact v.in_order
          ∙ ap (λ x. some (k.sha256 x)) v.has_content))
