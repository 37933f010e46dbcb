-- ===== src/Shared/Error.antt =====
-- The sentinel errors of the domain and application packages, and Go's `(value, error)` results.
-- A message that wraps a sentinel by `%w` keeps the sentinel, which is what callers test with
-- `errors.Is`; the text around it is not modelled.
use adquirente.Base.{Bool, true, false, String, Option, ◌≡◌, refl, ◌⊎◌, inl, inr}

pub data Error : Type 0 where
  not_found : Error
  invalid_amount : Error
  invalid_transition : Error
  concurrent_update : Error
  invalid_product : Error
  invalid_legal_name : Error
  invalid_mcc : Error
  merchant_inactive : Error
  invalid_webhook : Error
  invalid_document : Error
  invalid_bank_account : Error
  installments_not_allowed : Error
  invalid_fee_plan : Error
  debit_installments : Error
  max_installments : Error
  invalid_pan : Error
  invalid_token : Error
  not_captured : Error
  nothing_to_settle : Error
  wrong_day : Error
  wrong_merchant : Error
  wrong_status : Error
  no_receivables : Error
  not_anticipable : Error
  not_owner : Error
  already_done : Error
  amount_above_transaction : Error
  transaction_status : Error
  defense_closed : Error
  issuer_unavailable : Error
  limit_exceeded : Error
  already_running : Error
  receivable_liened : Error
  -- A Go run-time panic: an index out of range.
  index_out_of_range : Error
  -- An error that comes from outside the modelled code.
  external : String → Error
  -- `application.Permanent(err)`.
  permanent : Error → Error

-- A method that changes its receiver and returns an `error`: the new state, and `none` for nil.
abbrev pub Outcome : Type 0 → Type 0
Outcome S = S × Option Error

-- What a function that returns `(V, error)` returns.
pub data Result {ℓ} (V : Type ℓ) : Type ℓ where
  err : (reason : Error) → Result V
  ok : (value : V) → Result V

pub Result-cases {ℓ} :
    {V : Type ℓ} (r : Result V) → ((v : V) × (r ≡ ok v)) ⊎ ((e : Error) × (r ≡ err e))
Result-cases (err e) = inr (e, refl)
Result-cases (ok v) = inl (v, refl)

-- `if c { return nil, e }`
abbrev pub fail_if : Bool → Error → Result (Unit {0})
fail_if false reason = ok tt
fail_if true reason = err reason

-- `if err != nil { return nil, err }`, and the statements after it.
infixl 5 ◌>>=◌
abbrev pub ◌>>=◌ {ℓ κ} :
    {V : Type ℓ} {W : Type κ} (first : Result V) (next : V → Result W) → Result W
err reason >>= next = err reason
ok value >>= next = next value

-- A chain that succeeds succeeds at its first link.
pub >>=-eq-ok {ℓ κ} :
    {V : Type ℓ} {W : Type κ} (first : Result V) (next : V → Result W) {w : W}
    → (first >>= next) ≡ ok w
    → (v : V) × (first ≡ ok v) × (next v ≡ ok w)
>>=-eq-ok (err reason) next h = cc
>>=-eq-ok (ok value) next h = (value, refl, h)

infixl 5 ◌>>◌
abbrev pub ◌>>◌ {κ} : {W : Type κ} (check : Result (Unit {0})) (next : Result W) → Result W
check >> next = check >>= λ _. next

-- The same, to prove P from the link and the rest.
pub result_ok {ℓ κ ι} :
    {V : Type ℓ} {W : Type κ} {P : Type ι} (first : Result V) (next : V → Result W) {w : W}
    → (first >>= next) ≡ ok w
    → ((v : V) → first ≡ ok v → next v ≡ ok w → P)
    → P
result_ok (err reason) next h k = absurd (cc h)
result_ok (ok value) next h k = k value refl h
