-- ===== src/Base/Results.antt =====
-- What a call that may throw returns. The errors that the program throws are told apart by their
-- code, or by the check that throws them where they have none.
use mathlib.Core.Path.{◌≡◌, refl}
use mathlib.Core.Logic.{◌⊎◌, inl, inr}
use mathlib.Core.Bool.{Bool, true, false}

pub data Error : Type 0 where
  type_error : Error
  record_exists : Error
  cursor_ahead cursor_expired : Error
  wal_database_mismatch wal_sequence_gap corrupt_wal corrupt_database : Error
  unsupported_event document_not_found : Error
  missing_id : Error
  id_changed : Error
  account_email_exists account_not_found project_not_found unsupported_billing_event : Error
  unique_index_violation index_name_conflict duplicate_id invalid_index_catalog : Error
  invalid_queue_state send_failed : Error
  unsupported_backup backup_digest_mismatch backup_refused invalid_backup : Error
  io_failed : Error

-- What a call gives back, or the error that it throws.
pub data Result {ℓ} (T : Type ℓ) : Type ℓ where
  err : Error → Result T
  ok : T → Result T

infixl 5 ◌>>=◌ ◌>>◌
-- The next call is made only if this one has not thrown.
abbrev pub ◌>>=◌ {ℓ κ} : {T : Type ℓ} {U : Type κ} → Result T → (T → Result U) → Result U
err thrown >>= next = err thrown
ok value >>= next = next value

-- `if (!test) throw e`
abbrev pub require : Bool → Error → Result (Unit {0})
require test e = elim test [ false ↦ err e | true ↦ ok tt ]

abbrev pub ◌>>◌ {ℓ} : {U : Type ℓ} → Result (Unit {0}) → Result U → Result U
check >> rest = check >>= λ _. rest

-- A chain that returns got through its first call.
pub >>=-eq-ok {ℓ κ} :
    {T : Type ℓ} {U : Type κ} (call : Result T) (next : T → Result U) {u : U}
    → (call >>= next) ≡ ok u
    → (value : T) × (call ≡ ok value) × (next value ≡ ok u)
>>=-eq-ok (err thrown) next returned = cc
>>=-eq-ok (ok value) next returned = (value, refl, returned)

pub require-eq-ok {ℓ} :
    {B : Type ℓ} (t : Bool) (e : Error) (k : Result B) {b : B}
    → (require t e >> k) ≡ ok b
    → (t ≡ true) × (k ≡ ok b)
require-eq-ok true e k h = (refl, h)
require-eq-ok false e k h = cc

pub ok-injective {ℓ} : {A : Type ℓ} {a b : A} → ok a ≡ ok b → a ≡ b
ok-injective h = cc

pub Result-cases {ℓ} :
    {A : Type ℓ} (r : Result A) → ((a : A) × (r ≡ ok a)) ⊎ ((e : Error) × (r ≡ err e))
Result-cases (ok a) = inl (a, refl)
Result-cases (err e) = inr (e, refl)
