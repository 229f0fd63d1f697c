-- ===== src/Effects/Verified.antt =====
-- What is known of the artifact behind a file that is to be written.
use esaa_event_sourcing_agen.Prelude.{
  ◌≡◌, ap, subst, ◌∙◌, String, true, eq_iff, Option, none, some, arith, or_else, lookup,
  Option-cases, inl, inr,
}
use esaa_event_sourcing_agen.Event.{Effect}
use esaa_event_sourcing_agen.Prelude.Paths.{at_root}
use esaa_event_sourcing_agen.Effects.{
  Disk, Artifact, Archive, Settled, is_text, artifact_error, checked_artifact, read_artifact,
  target_of, safe_rel_path, final_file, settled_at, settled_rel, settled_artifact, settle,
}

module _ (k : Archive) (external_final : Artifact → Option String) (root : String) where
  checked-order : (a b : Artifact) → checked_artifact k a ≡ some b → artifact_error k b ≡ none
  unfolding checked_artifact
  checked-order a b h = elim (Option-cases (artifact_error k a)) [
    | inl e ↦
        subst (λ x. artifact_error k x ≡ none)
          (ap (λ o. elim o [ some x ↦ x | none ↦ a ]) (rw (e, checked_artifact) at h)) e
    | inr (x, e) ↦ absurd (cc (rw (e, checked_artifact) at h))
  ]

  read_artifact-order :
      (path : String) (disk : Disk) (a : Artifact)
      → read_artifact k root path disk ≡ some a
      → artifact_error k a ≡ none
  unfolding read_artifact
  read_artifact-order path disk a h = elim (Option-cases (lookup (at_root root path) disk)) [
    | inl e ↦ absurd (cc (rw (e, read_artifact) at h))
    | inr (text, e) ↦ elim (Option-cases (k.loads text)) [
      | inl q ↦ absurd (cc (rw (e, q, read_artifact) at h))
      | inr (b, q) ↦ checked-order b a (rw (e, q, read_artifact) at h)
    ]
  ]

  -- Where the file of an effect is, and that it is not as it should be.
  abbrev pub IsPlaced : Disk → Artifact → String → String → String → Type 0
  IsPlaced disk a rel final content =
      (settled_rel k external_final root disk a rel ≡ Settled.to_write rel final content)
      × (final_file k external_final root a rel ≡ some final)
      × (or_else a.content "" ≡ content)

  settled_at-place :
      (disk : Disk) (a : Artifact) (r f rel final content : String)
      → settled_at k external_final root disk a r f ≡ Settled.to_write rel final content
      → (r ≡ rel) × (f ≡ final) × (or_else a.content "" ≡ content)
  unfolding settled_at
  settled_at-place disk a r f rel final content h = ground (arith, h)

  settled_rel-IsPlaced :
      (disk : Disk) (a : Artifact) (r rel final content : String)
      → settled_rel k external_final root disk a r ≡ Settled.to_write rel final content
      → (r ≡ rel) × IsPlaced disk a rel final content
  unfolding settled_rel
  settled_rel-IsPlaced disk a r rel final content h =
      elim (Option-cases (final_file k external_final root a r)) [
        | inl e ↦ absurd (cc (rw (e, settled_rel) at h))
        | inr (f, e) ↦
            let (p, q, c) =
              settled_at-place disk a r f rel final content (rw (e, settled_rel) at h) in
            (
              p,
              (
                subst
                    (λ x.
                      settled_rel k external_final root disk a x
                      ≡ Settled.to_write rel final content)
                    p h,
                subst (λ x. final_file k external_final root a x ≡ some final) p (e ∙ ap some q),
                c,
              ),
            )
      ]

  -- the relative path that an artifact names
  abbrev pub Names : Artifact → String → Type 0
  Names a rel = (path : String) × (target_of a ≡ some path) × (safe_rel_path path ≡ some rel)

  -- An artifact was found whose hash and content are in order, it names this relative path, and the
  -- file that this stands for gets its content.
  pub record IsVerified (disk : Disk) (e : Effect) (rel_path final content : String) : Type 0 where
    pub artifact : Artifact
    pub was_read : read_artifact k root (or_else e.artifact_path "") disk ≡ some artifact
    pub in_order : artifact_error k artifact ≡ none
    pub has_content : or_else artifact.content "" ≡ content
    pub named : Names artifact rel_path
    pub has_place : final_file k external_final root artifact rel_path ≡ some final

  pub settled_artifact-IsPlaced :
      (disk : Disk) (a : Artifact) (rel final content : String)
      → settled_artifact k external_final root disk a ≡ Settled.to_write rel final content
      → Names a rel × IsPlaced disk a rel final content
  unfolding settled_artifact
  settled_artifact-IsPlaced disk a rel final content h = elim (Option-cases (target_of a)) [
    | inl e ↦ absurd (cc (rw (e, settled_artifact) at h))
    | inr (path, e) ↦ elim (Option-cases (safe_rel_path path)) [
      | inl q ↦ absurd (cc (rw (e, q, settled_artifact) at h))
      | inr (r, q) ↦
          let (p, placed) =
            settled_rel-IsPlaced disk a r rel final content (rw (e, q, settled_artifact) at h) in
          ((path, e, q ∙ ap some p), placed)
    ]
  ]

  pub settle-IsVerified :
      (disk : Disk) (e : Effect) (rel final content : String)
      → settle k external_final root disk e ≡ Settled.to_write rel final content
      → IsVerified disk e rel final content
  unfolding settle
  settle-IsVerified disk e rel final content h =
      elim (Option-cases (read_artifact k root (or_else e.artifact_path "") disk)) [
        | inl q ↦ absurd (cc (rw (q, settle) at h))
        | inr (a, q) ↦
            let (names, (w, place, c)) =
              settled_artifact-IsPlaced disk a rel final content (rw (q, settle) at h) in
            record {
              artifact = a;
              was_read = q;
              in_order = read_artifact-order (or_else e.artifact_path "") disk a q;
              has_content = c;
              named = names;
              has_place = place;
            }
      ]

  pub order-after_sha256 :
      (a : Artifact)
      → artifact_error k a ≡ none
      → a.after_sha256 ≡ some (k.sha256 (or_else a.content ""))
  unfolding artifact_error
  order-after_sha256 a h = by_sha a.after_sha256 (ground (arith, h))
    where
      by_sha :
          (o : Option String)
          → is_text o (k.sha256 (or_else a.content "")) ≡ true
          → o ≡ some (k.sha256 (or_else a.content ""))
      by_sha none h' = absurd (cc)
      by_sha (some s) h' = ap some ((eq_iff s (k.sha256 (or_else a.content ""))).0 h')
