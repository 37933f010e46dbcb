-- ===== src/Receivable/Units/Keys.antt =====
-- The map from keys to places agrees with the slice, so that a round adds a receivable to the first
-- unit with its key.
use adquirente.Base.{
  ℕ, zero, suc, ◌≡◌, refl, ap, ◌∙◌, inl, inr, Option, Option-cases, none, some, List, [], ◌∷◌, ◌++◌,
  length, if◌then◌else◌, arith,
}
use adquirente.Base.Assoc.{lookup, lookup-insert}
use adquirente.Shared.Money.{Money}
use adquirente.Receivable.{Receivable}
use adquirente.Receivable.Units.{
  UnitKey, unit_key, unit_key_eq, unit_key_eq_iff, ReceivableUnit, key_of, grow, grow_at, new_unit,
  group_step, group_from, group_units,
}

abbrev pub key_of_unit : ReceivableUnit → UnitKey
key_of_unit u = record {
  merchant = u.merchant_id;
  brand = u.brand;
  product = u.product;
  due = u.due_date;
}

abbrev up : Option ℕ → Option ℕ
up none = none
up (some i) = some (suc i)

-- The place of the first unit with a key.
unfoldable pub place : UnitKey → List ReceivableUnit → Option ℕ
place k [] = none
place k (u ∷ us) = if unit_key_eq (key_of_unit u) k then some 0 else up (place k us)

-- The specification of a round: the first unit with the receivable's key grows, or one is added.
unfoldable pub add_receivable : Receivable → List ReceivableUnit → List ReceivableUnit
add_receivable r [] = new_unit r ∷ []
add_receivable r (u ∷ us) =
    if unit_key_eq (key_of_unit u) (key_of r) then grow r.net u ∷ us else u ∷ add_receivable r us

place-grow_at :
    (k : UnitKey) (i : ℕ) (net : Money) (us : List ReceivableUnit)
    → place k (grow_at i net us) ≡ place k us
unfolding place grow_at
place-grow_at k i net [] = refl
place-grow_at k zero net (u ∷ us) = refl
place-grow_at k (suc i) net (u ∷ us) = rw (place-grow_at k i net us)

add_receivable_found :
    (r : Receivable) (us : List ReceivableUnit) (i : ℕ)
    → place (key_of r) us ≡ some i
    → grow_at i r.net us ≡ add_receivable r us
unfolding place grow_at add_receivable
add_receivable_found r [] i h = cc
add_receivable_found r (u ∷ us) zero h = ground arith
add_receivable_found r (u ∷ us) (suc i) h = ground (arith, add_receivable_found r us i)

add_receivable_new :
    (r : Receivable) (us : List ReceivableUnit)
    → place (key_of r) us ≡ none
    → us ++ new_unit r ∷ [] ≡ add_receivable r us
unfolding place add_receivable
add_receivable_new r [] h = refl
add_receivable_new r (u ∷ us) h = ground (arith, add_receivable_new r us)

place-append :
    (k : UnitKey) (us : List ReceivableUnit) (u : ReceivableUnit)
    → place k (us ++ u ∷ []) ≡ elim (place k us) [
      | some i ↦ some i
      | none ↦ if unit_key_eq (key_of_unit u) k then some (length us) else none
    ]
unfolding place
place-append k [] u = refl
place-append k (v ∷ us) u = ground (arith, place-append k us u)

-- The map sends every key to the place of its unit.
abbrev Indexes : List (UnitKey × ℕ) → List ReceivableUnit → Type 0
Indexes index us = (k : UnitKey) → lookup k index ≡ place k us

-- A round keeps map and slice in agreement, and does what the specification says.
group_step_lem :
    (r : Receivable) (index : List (UnitKey × ℕ)) (us : List ReceivableUnit)
    → Indexes index us
    → ((group_step r index us).1 ≡ add_receivable r us)
      × Indexes (group_step r index us).0 (group_step r index us).1
unfolding group_step
group_step_lem r index us h = elim (Option-cases (lookup (key_of r) index)) [
  | inl new ↦ (
    ground (arith, add_receivable_new r us, h (key_of r)),
    λ k. ground (
      arith,
      place-append k us (new_unit r),
      lookup-insert (key_of r) k (length us) index,
      h k,
      h (key_of r),
      unit_key_eq_iff (key_of r) k,
    ),
  )
  | inr (i, found) ↦ (
    ground (arith, add_receivable_found r us i, h (key_of r)),
    λ k. ground (arith, place-grow_at k i r.net us, h k),
  )
]

unfoldable pub add_all : List Receivable → List ReceivableUnit → List ReceivableUnit
add_all [] us = us
add_all (r ∷ rs) us = add_all rs (add_receivable r us)

group_from-add_all :
    (rs : List Receivable) (index : List (UnitKey × ℕ)) (us : List ReceivableUnit)
    → Indexes index us
    → group_from rs index us ≡ add_all rs us
unfolding group_from add_all
group_from-add_all [] index us h = refl
group_from-add_all (r ∷ rs) index us h =
    let (index', us') = group_step r index us in
    let (same, agree) = group_step_lem r index us h in
    group_from-add_all rs index' us' agree ∙ ap (add_all rs) same

pub group_units-add_all : (rs : List Receivable) → group_units rs ≡ add_all rs []
unfolding group_units place
group_units-add_all rs = group_from-add_all rs [] [] (λ k. refl)
