-- ===== src/Transaction/Card/Luhn.antt =====
-- The Luhn check: the loop against the weighted sum of the digits, and what the check detects.
use mathlib.Core.List.{reverse, reverse-append, reverse-cons, append_assoc}
use adquirente.Base.{
  ℕ, ◌+◌, ◌-◌, ◌%◌, ◌≤◌, ◌≡◌, inl, inr, Bool, true, false, not, some, Option-cases, [], ◌∷◌, ◌++◌,
  length, arith,
}
use adquirente.Base.Texts.{Text, is_digit}
use adquirente.Transaction.Card.{weigh, luhn_from, luhn}

-- The digits weighed from the last on.
abbrev weighed : Bool → Text → ℕ
weighed double [] = 0
weighed double (c ∷ rest) = weigh double (c - b'0') + weighed (not double) rest

luhn_from-weighed :
    (sum : ℕ) (double : Bool) (s : Text) {n : ℕ}
    → luhn_from sum double s ≡ some n
    → n ≡ sum + weighed double s
unfolding luhn_from
luhn_from-weighed sum double [] h = ground arith
luhn_from-weighed sum double (c ∷ s) {n} h =
    ground (arith, luhn_from-weighed (sum + weigh double (c - b'0')) (not double) s {n = n})

-- Different digits weigh differently modulo ten.
weigh_injective :
    (double : Bool) (c d : ℕ) (rest : ℕ)
    → is_digit c ≡ true
    → is_digit d ≡ true
    → (weigh double (c - b'0') + rest) % 10 ≡ 0
    → (weigh double (d - b'0') + rest) % 10 ≡ 0
    → c ≡ d
weigh_injective true c d rest p q h k = ground arith
weigh_injective false c d rest p q h k = ground arith

luhn_from-head_digit :
    (sum : ℕ) (double : Bool) (c : ℕ) (s : Text) {n : ℕ}
    → luhn_from sum double (c ∷ s) ≡ some n
    → is_digit c ≡ true
unfolding luhn_from
luhn_from-head_digit sum double c s h = ground arith

luhn_from-step :
    (sum : ℕ) (double : Bool) (c : ℕ) (s : Text) {n : ℕ}
    → luhn_from sum double (c ∷ s) ≡ some n
    → luhn_from (sum + weigh double (c - b'0')) (not double) s ≡ some n
unfolding luhn_from
luhn_from-step sum double c s h = ground arith

-- One digit of difference in the middle of the loop.
luhn_from_detects :
    (sum : ℕ) (double : Bool) (us vs : Text) (c d : ℕ) (n m : ℕ)
    → luhn_from sum double (us ++ c ∷ vs) ≡ some n
    → n % 10 ≡ 0
    → luhn_from sum double (us ++ d ∷ vs) ≡ some m
    → m % 10 ≡ 0
    → c ≡ d
luhn_from_detects sum double [] vs c d n m p pn q qm =
    weigh_injective double c d (sum + weighed (not double) vs)
      (luhn_from-head_digit sum double c vs p) (luhn_from-head_digit sum double d vs q)
      (omega (arith, luhn_from-weighed sum double (c ∷ vs) p))
      (omega (arith, luhn_from-weighed sum double (d ∷ vs) q))
luhn_from_detects sum double (u ∷ us) vs c d n m p pn q qm =
    luhn_from_detects (sum + weigh double (u - b'0')) (not double) us vs c d n m
      (luhn_from-step sum double u (us ++ c ∷ vs) p) pn
      (luhn_from-step sum double u (us ++ d ∷ vs) q) qm

-- What a number that passes the check is: 13 to 19 digits whose weighed sum is a multiple of ten.
luhn-loop :
    (pan : Text)
    → luhn pan ≡ true
    → (n : ℕ) × (luhn_from 0 false (reverse pan) ≡ some n) × (n % 10 ≡ 0)
unfolding luhn
luhn-loop pan h = elim (Option-cases (luhn_from 0 false (reverse pan))) [
  | inl stopped ↦ absurd (ground arith)
  | inr (n, eq) ↦ (n, eq, ground arith)
]

pub luhn-length : (pan : Text) → luhn pan ≡ true → (13 ≤ length pan) × (length pan ≤ 19)
unfolding luhn
luhn-length pan h = ground arith

reverse_split :
    (xs : Text) (c : ℕ) (ys : Text) → reverse (xs ++ c ∷ ys) ≡ reverse ys ++ c ∷ reverse xs
reverse_split xs c ys = simp (reverse-append, reverse-cons, append_assoc)

-- The check detects every error in a single digit: two numbers that pass it and differ in at most
-- one place are the same number.
pub luhn_detects :
    (xs ys : Text) (c d : ℕ) → luhn (xs ++ c ∷ ys) ≡ true → luhn (xs ++ d ∷ ys) ≡ true → c ≡ d
luhn_detects xs ys c d p q =
    let (n, pn, zn) = luhn-loop (xs ++ c ∷ ys) p in
    let (m, pm, zm) = luhn-loop (xs ++ d ∷ ys) q in
    luhn_from_detects 0 false (reverse ys) (reverse xs) c d n m (rw (reverse_split xs c ys) at pn)
      zn (rw (reverse_split xs d ys) at pm) zm
