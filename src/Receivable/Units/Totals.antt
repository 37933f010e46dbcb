-- ===== src/Receivable/Units/Totals.antt =====
-- What the units of `GroupUnits` say: each key has one unit, with the sum and the number of its
-- receivables.
use adquirente.Base.{
  ℕ, suc, ◌+◌, ◌≡◌, refl, ◌∙◌, inl, inr, Bool-cases, false, none, List, [], ◌∷◌, All, length,
  if◌then◌else◌, arith,
}
use native.Mathlib.Nat.{add-zero, zero-add}
use adquirente.Base.Int.{pos, ◌+ℤ◌}
use adquirente.Base.Int64.{Fits, add64, add64_exact}
use adquirente.Shared.Money.{Money, sum, sum_from}
use adquirente.Receivable.{Receivable}
use adquirente.Receivable.Units.{
  UnitKey, unit_key_eq, unit_key_eq_iff, ReceivableUnit, key_of, group_units,
}
use adquirente.Receivable.Units.Keys.{
  key_of_unit, place, add_receivable, add_all, group_units-add_all,
}

-- The net amounts of the receivables with a key, in order.
abbrev pub nets_with : UnitKey → List Receivable → List Money
nets_with k [] = []
nets_with k (r ∷ rs) =
    let rest = nets_with k rs in if unit_key_eq (key_of r) k then r.net ∷ rest else rest

-- The total and the count of the first unit with a key, 0 where there is none.
abbrev pub total_at : UnitKey → List ReceivableUnit → Money
total_at k [] = pos 0
total_at k (u ∷ us) = if unit_key_eq (key_of_unit u) k then u.total else total_at k us

abbrev pub count_at : UnitKey → List ReceivableUnit → ℕ
count_at k [] = 0
count_at k (u ∷ us) = if unit_key_eq (key_of_unit u) k then u.count else count_at k us

add64-zero : (v : Money) → Fits v → add64 (pos 0) v ≡ v
unfolding ◌+ℤ◌
add64-zero v h = ground (arith, add64_exact (pos 0) v)

total_at-add :
    (k : UnitKey) (r : Receivable) (us : List ReceivableUnit)
    → Fits r.net
    → total_at k (add_receivable r us)
      ≡ (if unit_key_eq (key_of r) k then add64 (total_at k us) r.net else total_at k us)
unfolding add_receivable
total_at-add k r [] h = ground (arith, add64-zero r.net)
total_at-add k r (u ∷ us) h = ground (
  arith,
  total_at-add k r us h,
  unit_key_eq_iff (key_of r) k,
  unit_key_eq_iff (key_of_unit u) k,
  unit_key_eq_iff (key_of_unit u) (key_of r),
)

count_at-add :
    (k : UnitKey) (r : Receivable) (us : List ReceivableUnit)
    → count_at k (add_receivable r us)
      ≡ (if unit_key_eq (key_of r) k then suc (count_at k us) else count_at k us)
unfolding add_receivable
count_at-add k r [] = ground arith
count_at-add k r (u ∷ us) = ground (
  arith,
  count_at-add k r us,
  unit_key_eq_iff (key_of r) k,
  unit_key_eq_iff (key_of_unit u) k,
  unit_key_eq_iff (key_of_unit u) (key_of r),
)

total_at-add_all :
    (k : UnitKey) (rs : List Receivable) (us : List ReceivableUnit)
    → All (λ r. Fits r.net) rs
    → total_at k (add_all rs us) ≡ sum_from (total_at k us) (nets_with k rs)
unfolding add_all sum_from
total_at-add_all k [] us h = refl
total_at-add_all k (r ∷ rs) us h =
    total_at-add_all k rs (add_receivable r us) h.1 ∙ ground (arith, total_at-add k r us h.0)

count_at-add_all :
    (k : UnitKey) (rs : List Receivable) (us : List ReceivableUnit)
    → count_at k (add_all rs us) ≡ count_at k us + length (nets_with k rs)
unfolding add_all
count_at-add_all k [] us = rw add-zero
count_at-add_all k (r ∷ rs) us =
    count_at-add_all k rs (add_receivable r us) ∙ ground (arith, count_at-add k r us)

-- No two units have the same key.
abbrev pub Distinct : List ReceivableUnit → Type 0
Distinct [] = Unit
Distinct (u ∷ us) = (place (key_of_unit u) us ≡ none) × Distinct us

place-add :
    (k : UnitKey) (r : Receivable) (us : List ReceivableUnit)
    → unit_key_eq (key_of r) k ≡ false
    → place k (add_receivable r us) ≡ place k us
unfolding add_receivable place
place-add k r [] h = ground arith
place-add k r (u ∷ us) h = ground (arith, place-add k r us h)

Distinct-add :
    (r : Receivable) (us : List ReceivableUnit) → Distinct us → Distinct (add_receivable r us)
unfolding add_receivable
Distinct-add r [] h = (unfold place in refl, tt)
Distinct-add r (u ∷ us) h = elim (Bool-cases (unit_key_eq (key_of_unit u) (key_of r))) [
  | inl same ↦ rw same h
  | inr other ↦ rw other (
    place-add (key_of_unit u) r us (
          ground (
            arith,
            unit_key_eq_iff (key_of r) (key_of_unit u),
            unit_key_eq_iff (key_of_unit u) (key_of r),
          ))
        ∙ h.0,
    Distinct-add r us h.1,
  )
]

Distinct-add_all :
    (rs : List Receivable) (us : List ReceivableUnit) → Distinct us → Distinct (add_all rs us)
unfolding add_all
Distinct-add_all [] us h = h
Distinct-add_all (r ∷ rs) us h = Distinct-add_all rs (add_receivable r us) (Distinct-add r us h)

-- Grouping receivables whose net amounts fit in 64 bits gives units with distinct keys, and for
-- every key the total and the count are those of the receivables with that key: nothing is lost
-- and nothing is counted twice.
pub group_units_lem :
    (rs : List Receivable)
    → All (λ r. Fits r.net) rs
    → Distinct (group_units rs)
      × ((k : UnitKey)
          → (total_at k (group_units rs) ≡ sum (nets_with k rs))
            × (count_at k (group_units rs) ≡ length (nets_with k rs)))
unfolding sum
group_units_lem rs h = rw (group_units-add_all rs) (
  Distinct-add_all rs [] tt,
  λ k. (total_at-add_all k rs [] h, count_at-add_all k rs [] ∙ zero-add _),
)
