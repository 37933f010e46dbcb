-- ===== src/Ledger/Balance.antt =====
-- Every movement of money is balanced, and a chargeback undoes the schedule, account by account.
use adquirente.Base.{
  ℕ, ◌+◌, ◌%◌, ◌≡◌, refl, ap, ◌↔◌, Bool-cases, inl, inr, true, String, List, [], ◌∷◌, ◌++◌, All,
  map, arith,
}
use adquirente.Base.Int.{pos, eqb_ℤ, eqb_ℤ_iff}
use adquirente.Base.Int64.{
  Fits, bits, bits-lt, full_range, add64, sub64, add64-Fits, bits-sub64, eq_of_bits, int64_laws,
}
use adquirente.Shared.Money.{Money}
use adquirente.Shared.Money.Sums.{bits_total}
use adquirente.Shared.Time.{Time}
use adquirente.Receivable.{Receivable}
use adquirente.Settlement.{Settlement}
use adquirente.Anticipation.{Anticipation}
use adquirente.Ledger.{
  Entry, scheduled_from, for_scheduled, for_anticipation, for_settlement, for_chargeback,
  for_chargeback_anticipated, balanced_from, balanced,
}

abbrev debits : List Entry → List Money
debits = map (λ e. e.debit)

abbrev credits : List Entry → List Money
credits = map (λ e. e.credit)

pub zero_bits : bits (pos 0) ≡ 0
unfolding bits
zero_bits = refl

balanced_from_iff :
    (d c : Money) (es : List Entry)
    → Fits d
    → Fits c
    → (balanced_from d c es ≡ true) ↔ (
        (bits d + bits_total (debits es)) % full_range
        ≡ (bits c + bits_total (credits es)) % full_range)
unfolding balanced_from
balanced_from_iff d c [] fd fc =
    let (to, from) = eqb_ℤ_iff d c in
    (
      (λ h. ap (λ z. (bits z + 0) % full_range) (to h)),
      λ h. from (eq_of_bits d c fd fc (omega (arith, bits-lt d, bits-lt c, h))),
    )
balanced_from_iff d c (e ∷ es) fd fc =
    let (to, from) =
      balanced_from_iff (add64 d e.debit) (add64 c e.credit) es (add64-Fits d e.debit)
        (add64-Fits c e.credit) in
    (λ h. omega (int64_laws, to h), λ h. from (omega int64_laws))

-- What a receivable promises of its amounts.
abbrev pub NetAdds : Receivable → Type 0
NetAdds r = r.net ≡ sub64 r.gross r.fee

balanced_of_bits :
    (es : List Entry)
    → bits_total (debits es) % full_range ≡ bits_total (credits es) % full_range
    → balanced es ≡ true
unfolding balanced
balanced_of_bits es h =
    (balanced_from_iff (pos 0) (pos 0) es (omega arith, omega arith) (omega arith, omega arith)).1
      (omega (arith, zero_bits, h))

net-bits : (r : Receivable) → NetAdds r → (bits r.net + bits r.fee) % full_range ≡ bits r.gross
net-bits r e =
    omega (int64_laws, ap bits e, bits-sub64 r.gross r.fee, bits-lt r.gross, bits-lt r.fee)

scheduled-bits :
    (new_id : ℕ → String) (k : ℕ) (rs : List Receivable) (at : Time)
    → All NetAdds rs
    → bits_total (debits (scheduled_from new_id k rs at)) % full_range
      ≡ bits_total (credits (scheduled_from new_id k rs at)) % full_range
unfolding scheduled_from
scheduled-bits new_id k [] at h = refl
scheduled-bits new_id k (r ∷ rs) at (e, es) =
    omega (int64_laws, scheduled-bits new_id (k + 3) rs at es, net-bits r e, zero_bits)

-- A movement of money with its identifiers and its time.
pub data Movement : Type 0 where
  schedule_move : (ℕ → String) → List Receivable → Time → Movement
  anticipation_move : (ℕ → String) → Anticipation → Time → Movement
  settlement_move : (ℕ → String) → Settlement → Time → Movement
  chargeback_move : (ℕ → String) → Receivable → Time → Movement
  late_chargeback_move : (ℕ → String) → Receivable → Time → Movement

abbrev pub entries : Movement → List Entry
entries (schedule_move new_id rs at) = for_scheduled new_id rs at
entries (anticipation_move new_id a at) = for_anticipation new_id a at
entries (settlement_move new_id s at) = for_settlement new_id s at
entries (chargeback_move new_id r at) = for_chargeback new_id r at
entries (late_chargeback_move new_id r at) = for_chargeback_anticipated new_id r at

-- The amounts of a movement agree: a net amount is the gross one less the fee or the discount.
abbrev pub IsSound : Movement → Type 0
IsSound (schedule_move new_id rs at) = All NetAdds rs
IsSound (anticipation_move new_id a at) = a.discount ≡ sub64 a.gross a.net
IsSound (settlement_move new_id s at) = Unit
IsSound (chargeback_move new_id r at) = NetAdds r
IsSound (late_chargeback_move new_id r at) = NetAdds r

-- The entries of a sequence of movements, in the order in which they are appended.
abbrev pub book : List Movement → List Entry
book [] = []
book (m ∷ ms) = entries m ++ book ms

debits-append :
    (xs ys : List Entry)
    → bits_total (debits (xs ++ ys)) ≡ bits_total (debits xs) + bits_total (debits ys)
debits-append [] ys = omega arith
debits-append (x ∷ xs) ys = omega (arith, debits-append xs ys)

credits-append :
    (xs ys : List Entry)
    → bits_total (credits (xs ++ ys)) ≡ bits_total (credits xs) + bits_total (credits ys)
credits-append [] ys = omega arith
credits-append (x ∷ xs) ys = omega (arith, credits-append xs ys)

movement-bits :
    (m : Movement)
    → IsSound m
    → bits_total (debits (entries m)) % full_range ≡ bits_total (credits (entries m)) % full_range
movement-bits (schedule_move new_id rs at) h = scheduled-bits new_id 0 rs at h
movement-bits (anticipation_move new_id a at) h =
    omega
      (int64_laws, zero_bits, ap bits h, bits-sub64 a.gross a.net, bits-lt a.gross, bits-lt a.net)
movement-bits (settlement_move new_id s at) h =
    elim (Bool-cases (eqb_ℤ (add64 s.to_merchant s.to_creditors) (pos 0))) [
      | inl zero_paid ↦ rw zero_paid
      | inr paid ↦ rw paid (omega (arith, zero_bits))
    ]
movement-bits (chargeback_move new_id r at) h = omega (arith, zero_bits, net-bits r h)
movement-bits (late_chargeback_move new_id r at) h = omega (arith, zero_bits, net-bits r h)

book-bits :
    (ms : List Movement)
    → All IsSound ms
    → bits_total (debits (book ms)) % full_range ≡ bits_total (credits (book ms)) % full_range
book-bits [] h = refl
book-bits (m ∷ ms) (h, hs) = omega (
  arith,
  debits-append (entries m) (book ms),
  credits-append (entries m) (book ms),
  movement-bits m h,
  book-bits ms hs,
)

-- The book is always balanced: `Balanced` accepts the entries of every sequence of schedules,
-- anticipations, settlements and chargebacks whose net amounts are the gross ones less the fee or the discount.
pub book-balanced : (ms : List Movement) → All IsSound ms → balanced (book ms) ≡ true
book-balanced ms h = balanced_of_bits (book ms) (book-bits ms h)

balanced-bits :
    (es : List Entry)
    → balanced es ≡ true
    → bits_total (debits es) % full_range ≡ bits_total (credits es) % full_range
unfolding balanced
balanced-bits es h = omega (
  arith,
  zero_bits,
  (balanced_from_iff (pos 0) (pos 0) es (omega arith, omega arith) (omega arith, omega arith)).0 h,
)

-- Balanced entries after balanced entries are balanced.
pub balanced-append :
    (xs ys : List Entry) → balanced xs ≡ true → balanced ys ≡ true → balanced (xs ++ ys) ≡ true
balanced-append xs ys h k = balanced_of_bits (xs ++ ys) (
    omega
      (arith, debits-append xs ys, credits-append xs ys, balanced-bits xs h, balanced-bits ys k))

pub balanced_nil : balanced [] ≡ true
unfolding balanced balanced_from
balanced_nil = refl
