-- ===== src/Outcome.antt =====
-- src/esaa/errors.py: code that may raise returns an `Outcome`. An `ESAAError` (or its subclass
-- `CorruptedStoreError`) is the code that it carries, without its message text; a missing
-- dictionary key is `key_error`, an index out of range is `index_error`, and a file that is not
-- there is `os_error`.
use esaa_event_sourcing_agen.Prelude.{
  Bool, true, false, Option, none, some, ◌≡◌, ◌⊎◌, inl, inr, refl, arith,
}
use esaa_event_sourcing_agen.Codes.{Code}

pub data Failure : Type 0 where
  esaa_error : Code → Failure
  key_error index_error os_error : Failure

pub data Outcome {ℓ} (A : Type ℓ) : Type ℓ where
  ok : A → Outcome A
  raise : Failure → Outcome A

-- `if not test: raise ESAAError(code, ...)`
abbrev pub guard : Bool → Code → Outcome (Unit {0})
guard false c = raise (esaa_error c)
guard true c = ok tt

infixl 5 ◌>>=◌ ◌>>◌
abbrev pub ◌>>=◌ {ℓ κ} : {A : Type ℓ} {B : Type κ} → Outcome A → (A → Outcome B) → Outcome B
raise failure >>= next = raise failure
ok a >>= next = next a

-- `d[key]`
abbrev pub required {ℓ} : {A : Type ℓ} → Option A → Outcome A
required none = raise key_error
required (some a) = ok a

abbrev pub ◌>>◌ {ℓ} : {B : Type ℓ} → Outcome (Unit {0}) → Outcome B → Outcome B
m >> next = m >>= λ _. next

-- Inversion of a successful bind, for proofs where the parts stay shut.
pub >>=-eq-ok {ℓ κ} :
    {A : Type ℓ} {B : Type κ} {result : B} (m : Outcome A) (next : A → Outcome B)
    → (m >>= next) ≡ ok result
    → (value : A) × (m ≡ ok value) × (next value ≡ ok result)
>>=-eq-ok (raise failure) next h = ground arith
>>=-eq-ok (ok value) next h = (value, refl, h)

pub Outcome-cases {ℓ} :
    {A : Type ℓ} (o : Outcome A) → ((f : Failure) × (o ≡ raise f)) ⊎ ((a : A) × (o ≡ ok a))
Outcome-cases (ok a) = inr (a, refl)
Outcome-cases (raise f) = inl (f, refl)
