-- ===== src/Edits/Bases.antt =====
-- What the updates that `resolve_edit_updates` gives are made from.
use esaa_event_sourcing_agen.Prelude.{
  ◌≡◌, refl, sym, ap, subst, ◌∙◌, String, not, ◌==◌, eq_iff, Option, none, some, List, [], ◌∷◌,
  arith, lookup, Option-cases, inl, inr,
}
use esaa_event_sourcing_agen.Codes.{Code}
use esaa_event_sourcing_agen.Outcome.{ok, raise, guard, >>=-eq-ok}
use esaa_event_sourcing_agen.Edits.{Edit, apply_edits}
use esaa_event_sourcing_agen.Edits.Rewriting.{EditedBy, apply_edits-EditedBy}
use esaa_event_sourcing_agen.Edits.Resolving.{
  Resolved, workspace_path, checked_base, base_text, is_empty, resolve_edits, resolve_update,
  resolve_edit_updates,
}
use esaa_event_sourcing_agen.Validation.{FileUpdate}
use esaa_event_sourcing_agen.Effects.{Disk}
use esaa_event_sourcing_agen.Prelude.Paths.{at_root}

module _ (sha256 : String → String) (root : String) (disk : Disk) where
  -- The content is the one given, or it comes by the edits from the text of the file, which has the
  -- hash that the update names.
  pub data MadeFrom (u : FileUpdate) (r : Resolved) : Type 0 where
    given : u.edits ≡ none → u.content ≡ some r.content → r.path ≡ u.path → MadeFrom u r
    edited :
        (edits : List Edit) (text : String)
        → u.edits ≡ some edits
        → u.content ≡ none
        → workspace_path u.path ≡ ok r.path
        → lookup (at_root root r.path) disk ≡ some text
        → u.base_sha256 ≡ some (sha256 text)
        → EditedBy edits text r.content
        → MadeFrom u r

  -- the updates one by one
  pub data AllMadeFrom : List FileUpdate → List Resolved → Type 0 where
    none_made : AllMadeFrom [] []
    also_made :
        {u : FileUpdate} {r : Resolved} {us : List FileUpdate} {rs : List Resolved}
        → MadeFrom u r
        → AllMadeFrom us rs
        → AllMadeFrom (u ∷ us) (r ∷ rs)

  base_text-some : (o : Option String) (text : String) → base_text o ≡ ok text → o ≡ some text
  unfolding base_text
  base_text-some none text h = absurd (cc)
  base_text-some (some t) text h = ground arith

  checked_base-some : (o : Option String) (sha : String) → checked_base o ≡ ok sha → o ≡ some sha
  unfolding checked_base
  checked_base-some none sha h = absurd (cc)
  checked_base-some (some s) sha h = ground arith

  resolve_edits-MadeFrom :
      (u : FileUpdate) (edits : List Edit) (r : Resolved)
      → u.edits ≡ some edits
      → u.content ≡ none
      → resolve_edits sha256 root disk u edits ≡ ok r
      → MadeFrom u r
  unfolding resolve_edits
  resolve_edits-MadeFrom u edits r e c h =
      let (path, p, h1) = >>=-eq-ok (workspace_path u.path) _ h in
      let (base, b, h2) = >>=-eq-ok (checked_base u.base_sha256) _ h1 in
      let (x1, g1, h3) = >>=-eq-ok (guard (not (is_empty edits)) Code.edit_invalid) _ h2 in
      let (text, t, h4) = >>=-eq-ok (base_text (lookup (at_root root path) disk)) _ h3 in
      let (x2, g2, h5) = >>=-eq-ok (guard (sha256 text == base) Code.edit_base_mismatch) _ h4 in
      let (after, a, h6) = >>=-eq-ok (apply_edits text edits) _ h5 in
      let same : sha256 text ≡ base = ground (arith, g2, eq_iff (sha256 text) base) in
      subst (MadeFrom u) (ap (λ o. elim o [ ok x ↦ x | raise f ↦ r ]) h6) (
        edited edits text e c p (base_text-some (lookup (at_root root path) disk) text t)
          (checked_base-some u.base_sha256 base b ∙ ap some (sym same))
          (apply_edits-EditedBy text after edits a))

  resolve_update-MadeFrom :
      (u : FileUpdate) (r : Resolved) → resolve_update sha256 root disk u ≡ ok r → MadeFrom u r
  unfolding resolve_update
  resolve_update-MadeFrom u r h = elim (Option-cases u.edits) [
    | inl e ↦ elim (Option-cases u.content) [
      | inl c ↦ absurd (cc (rw (e, c, resolve_update) at h))
      | inr (content, c) ↦
          subst (MadeFrom u)
            (ap (λ o. elim o [ ok x ↦ x | raise f ↦ r ]) (rw (e, c, resolve_update) at h))
            (given e c refl)
    ]
    | inr (edits, e) ↦ elim (Option-cases u.content) [
      | inl c ↦ resolve_edits-MadeFrom u edits r e c (rw (e, c, resolve_update) at h)
      | inr (content, c) ↦ absurd (cc (rw (e, c, resolve_update) at h))
    ]
  ]

  -- The updates that `resolve_edit_updates` gives are made from those it is given, one by one: each has
  -- the content and the path given, or its content comes by the edits from the text of the file that
  -- `root / path` stands for, with the checked path, and this text has the hash that is named.
  pub resolve_edit_updates-MadeFrom :
      (us : List FileUpdate) (rs : List Resolved)
      → resolve_edit_updates sha256 root disk us ≡ ok rs
      → AllMadeFrom us rs
  unfolding resolve_edit_updates
  resolve_edit_updates-MadeFrom [] rs h =
      subst (AllMadeFrom []) (ap (λ o. elim o [ ok x ↦ x | raise f ↦ rs ]) h) none_made
  resolve_edit_updates-MadeFrom (u ∷ us) rs h =
      let (r, m, h1) = >>=-eq-ok (resolve_update sha256 root disk u) _ h in
      let (rest, n, h2) = >>=-eq-ok (resolve_edit_updates sha256 root disk us) _ h1 in
      subst (AllMadeFrom (u ∷ us)) (ap (λ o. elim o [ ok x ↦ x | raise f ↦ rs ]) h2)
        (also_made (resolve_update-MadeFrom u r m) (resolve_edit_updates-MadeFrom us rest n))
