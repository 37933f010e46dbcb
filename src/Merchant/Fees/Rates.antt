-- ===== src/Merchant/Fees/Rates.antt =====
-- Every rate that a constructed plan quotes lies between 0 and 100 %.
use mathlib.Core.Path.{subst}
use adquirente.Base.{
  Bool, Bool-cases, false, inl, inr, ◌||◌, ◌≡◌, false, List, [], ◌∷◌, some, arith, All,
}
use adquirente.Base.Int.{ℤ, pos, ◌≤ℤ◌, eqb_ℤ, ltb_ℤ}
use adquirente.Base.Assoc.{lookup, insert, int_eq}
use adquirente.Shared.Error.{ok, >>=-eq-ok}
use adquirente.Shared.Money.{Bps}
use adquirente.Shared.Product.{Product}
use adquirente.Merchant.Fees.{FeePlan, new_fee_plan, copy_rates, mdr}

abbrev pub IsRate : Bps → Type 0
IsRate r = (pos 0 ≤ℤ r) × (r ≤ℤ pos 10000)

abbrev pub AreRates : List (ℤ × Bps) → Type 0
AreRates = All (λ e. (pos 2 ≤ℤ e.0) × (e.0 ≤ℤ pos 12) × IsRate e.1)

pub record IsValid (p : FeePlan) : Type 0 where
  pub debit_in : IsRate p.debit_rate
  pub one_shot_in : IsRate p.credit_one_shot
  pub installments_in : AreRates p.credit_installments
  pub month_in : pos 0 ≤ℤ p.anticipation_rate_month

insert-AreRates :
    (n : ℤ) (bps : Bps) (m : List (ℤ × Bps))
    → pos 2 ≤ℤ n
    → n ≤ℤ pos 12
    → IsRate bps
    → AreRates m
    → AreRates (insert n bps m)
insert-AreRates n bps [] a b c h = ((a, b, c), tt)
insert-AreRates n bps (e ∷ m) a b c h = elim (Bool-cases (eqb_ℤ e.0 n)) [
  | inl same ↦ rw same ((a, b, c), h.1)
  | inr other ↦ rw other (h.0, insert-AreRates n bps m a b c h.1)
]

abbrev is_bad : ℤ → Bps → Bool
is_bad n bps = ltb_ℤ n (pos 2) || ltb_ℤ (pos 12) n || ltb_ℤ bps (pos 0) || ltb_ℤ (pos 10000) bps

good_entry : (n : ℤ) (bps : Bps) → is_bad n bps ≡ false → (pos 2 ≤ℤ n) × (n ≤ℤ pos 12) × IsRate bps
good_entry n bps h = ground arith

copy_rates-AreRates :
    (rates es : List (ℤ × Bps)) {out : List (ℤ × Bps)}
    → AreRates rates
    → copy_rates rates es ≡ ok out
    → AreRates out
unfolding copy_rates
copy_rates-AreRates rates [] {out} h e = subst AreRates (cc) h
copy_rates-AreRates rates ((n, bps) ∷ es) h e = elim (Bool-cases (is_bad n bps)) [
  | inl bad ↦ absurd (ground (arith, bad))
  | inr fine ↦
      let (a, b, c) = good_entry n bps fine in
      copy_rates-AreRates (insert n bps rates) es (insert-AreRates n bps rates a b c h)
        (rw fine at e)
]

lookup-IsRate : (n : ℤ) (m : List (ℤ × Bps)) {r : Bps} → AreRates m → lookup n m ≡ some r → IsRate r
lookup-IsRate n [] {r} h e = cc
lookup-IsRate n (x ∷ m) {r} h e = ground (arith, lookup-IsRate n m {r = r} h.1)

abbrev is_refused : Bps → Bps → Bps → Bool
is_refused d o m =
    ltb_ℤ d (pos 0)
    || ltb_ℤ o (pos 0)
    || ltb_ℤ m (pos 0)
    || ltb_ℤ (pos 10000) d
    || ltb_ℤ (pos 10000) o

abbrev plan_of : Bps → Bps → Bps → List (ℤ × Bps) → FeePlan
plan_of d o m rates = record {
  debit_rate = d;
  credit_one_shot = o;
  credit_installments = rates;
  anticipation_rate_month = m;
}

plan_of-IsValid :
    (d o m : Bps) (rates : List (ℤ × Bps))
    → is_refused d o m ≡ false
    → AreRates rates
    → IsValid (plan_of d o m rates)
plan_of-IsValid d o m rates h a = record {
  debit_in = ground arith;
  one_shot_in = ground arith;
  installments_in = a;
  month_in = ground arith;
}

-- A plan that `NewFeePlan` accepts is valid: all its rates are between 0 and 100 %, for 2 to 12
-- instalments.
pub new_fee_plan-IsValid :
    (d o : Bps) (i : List (ℤ × Bps)) (m : Bps) {p : FeePlan}
    → new_fee_plan d o i m ≡ ok p
    → IsValid p
unfolding new_fee_plan
new_fee_plan-IsValid d o i m {p} h = elim (Bool-cases (is_refused d o m)) [
  | inl refused ↦ absurd (cc (rw refused at h))
  | inr fine ↦
      let (rates, copied, built) =
        >>=-eq-ok (copy_rates [] i) (λ rates. ok (plan_of d o m rates)) (rw fine at h) in
      subst IsValid (cc) (plan_of-IsValid d o m rates fine (copy_rates-AreRates [] i tt copied))
]

-- Every rate that a valid plan quotes is between 0 and 100 %.
pub mdr-IsRate :
    (p : FeePlan) (product : Product) (n : ℤ) {r : Bps}
    → IsValid p
    → mdr p product n ≡ ok r
    → IsRate r
unfolding mdr
mdr-IsRate p product n {r} v h =
    ground (arith, lookup-IsRate n p.credit_installments {r = r} v.installments_in)
