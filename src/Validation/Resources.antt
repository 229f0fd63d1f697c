-- ===== src/Validation/Resources.antt =====
-- What the resource limits and the check for unique paths accept.
use esaa_event_sourcing_agen.Prelude.{
  ℕ, ◌+◌, ◌≤◌, ◌≡◌, ◌↔◌, not, List, [], ◌∷◌, arith, All, length, ltb,
}
use esaa_event_sourcing_agen.Codes.{Code}
use esaa_event_sourcing_agen.Outcome.{ok, guard, >>=-eq-ok}
use esaa_event_sourcing_agen.Validation.{
  FileUpdate, ResourceLimits, Limits3, resource_limits_from_policy, file_update_size, check_sizes,
  validate_file_update_resource_limits,
}

abbrev pub total_size : List FileUpdate → ℕ
total_size [] = 0
total_size (u ∷ us) = file_update_size u + total_size us

check_sizes-ok :
    (limits : Limits3) (total : ℕ) (us : List FileUpdate)
    → All (λ u. file_update_size u ≤ limits.per_update) us
    → check_sizes limits total us ≡ ok (total + total_size us)
unfolding check_sizes
check_sizes-ok limits total [] h = ground arith
check_sizes-ok limits total (u ∷ us) h =
    let fits = h.0 in ground (arith, check_sizes-ok limits (total + file_update_size u) us h.1)

check_sizes-total :
    (limits : Limits3) (total result : ℕ) (us : List FileUpdate)
    → check_sizes limits total us ≡ ok result
    → All (λ u. file_update_size u ≤ limits.per_update) us × (result ≡ total + total_size us)
unfolding check_sizes
check_sizes-total limits total result [] h = (tt, ground arith)
check_sizes-total limits total result (u ∷ us) h =
    let (v, g, r) = >>=-eq-ok (guard (not (ltb limits.per_update (file_update_size u))) _) _ h in
    let (a, e) = check_sizes-total limits (total + file_update_size u) result us r in
    ((ground arith, a), omega (arith, e))

-- The number of updates, the size of each and their total stay within the limits.
pub record IsWithinLimits (limits : Limits3) (us : List FileUpdate) : Type 0 where
  pub few : length us ≤ limits.updates
  pub small : All (λ u. file_update_size u ≤ limits.per_update) us
  pub together : total_size us ≤ limits.total

-- `validate_file_update_resource_limits` accepts exactly the updates within the limits of the policy.
pub resource_limits_iff :
    (us : List FileUpdate) (policy : ResourceLimits)
    → (validate_file_update_resource_limits us policy ≡ ok tt)
      ↔ IsWithinLimits (resource_limits_from_policy policy) us
unfolding validate_file_update_resource_limits
resource_limits_iff us policy = (accepted, enough)
  where
    accepted :
        validate_file_update_resource_limits us policy ≡ ok tt
        → IsWithinLimits (resource_limits_from_policy policy) us
    accepted h =
        let limits = resource_limits_from_policy policy in
        let (v, g, r) =
          >>=-eq-ok (guard (not (ltb limits.updates (length us))) Code.resource_limit_exceeded) _
            h in
        let (total, c, q) = >>=-eq-ok (check_sizes limits 0 us) _ r in
        let (small, e) = check_sizes-total limits 0 total us c in
        record { few = ground arith; small = small; together = ground (arith, e) }

    enough :
        IsWithinLimits (resource_limits_from_policy policy) us
        → validate_file_update_resource_limits us policy ≡ ok tt
    enough w =
        let few = w.few in
        let together = w.together in
        rw (check_sizes-ok (resource_limits_from_policy policy) 0 us w.small) (ground arith)
