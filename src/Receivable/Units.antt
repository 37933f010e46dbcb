-- ===== src/Receivable/Units.antt =====
-- `GroupUnits` of internal/domain/receivable/schedule.go: receivables added up to the units that the
-- registry knows, one for each merchant, brand, product and due date.
pub mod Keys
pub mod Totals
use adquirente.Base.{
  ℕ, zero, suc, ◌+◌, Bool, true, false, ◌&&◌, ◌↔◌, ◌≡◌, refl, String, str_eq, Option, none, some,
  List, [], ◌∷◌, ◌++◌, length, ◌==◌, arith, eq_iff,
}
use adquirente.Base.Int64.{add64}
use adquirente.Base.Assoc.{Eq, lookup, insert}
use adquirente.Shared.Money.{Money}
use adquirente.Shared.Product.{Product, product_eq}
use adquirente.Shared.Time.{Time}
use adquirente.Receivable.{Receivable}

pub record UnitKey : Type 0 where
  pub merchant : String
  pub brand : String
  pub product : Product
  pub due : Time

unfoldable pub unit_key_eq : UnitKey → UnitKey → Bool
unit_key_eq a b =
    str_eq a.merchant b.merchant
    && str_eq a.brand b.brand
    && product_eq a.product b.product
    && a.due == b.due

pub unit_key_eq_iff : (a b : UnitKey) → (unit_key_eq a b ≡ true) ↔ (a ≡ b)
unfolding unit_key_eq
unit_key_eq_iff a b = ground (arith, eq_iff a.merchant b.merchant, eq_iff a.brand b.brand)

instance abbrev pub unit_key : Eq UnitKey
unit_key = record { beq = unit_key_eq; beq_iff = unit_key_eq_iff }

pub record ReceivableUnit : Type 0 where
  pub merchant_id : String
  pub brand : String
  pub product : Product
  pub due_date : Time
  pub total : Money
  pub count : ℕ

abbrev pub key_of : Receivable → UnitKey
key_of r = record {
  merchant = r.merchant_id;
  brand = r.brand;
  product = r.product;
  due = r.due_date;
}

-- `units[i].Total += net; units[i].Count++`
abbrev pub grow : Money → ReceivableUnit → ReceivableUnit
grow net u = record u { total = add64 u.total net; count = suc u.count }

-- An index out of range does not occur here; the model leaves the slice as it is.
pub grow_at : ℕ → Money → List ReceivableUnit → List ReceivableUnit
grow_at i net [] = []
grow_at zero net (u ∷ us) = grow net u ∷ us
grow_at (suc i) net (u ∷ us) = u ∷ grow_at i net us

abbrev pub new_unit : Receivable → ReceivableUnit
new_unit r = record {
  merchant_id = r.merchant_id;
  brand = r.brand;
  product = r.product;
  due_date = r.due_date;
  total = r.net;
  count = 1;
}

-- One round of the loop, on the map `index` and the slice `units`.
pub group_step :
    Receivable → List (UnitKey × ℕ) → List ReceivableUnit → List (UnitKey × ℕ) × List ReceivableUnit
unfolding grow_at
group_step r index units = elim (lookup (key_of r) index) [
  | some i ↦ (index, grow_at i r.net units)
  | none ↦ (insert (key_of r) (length units) index, units ++ new_unit r ∷ [])
]

pub group_from : List Receivable → List (UnitKey × ℕ) → List ReceivableUnit → List ReceivableUnit
group_from [] index units = units
group_from (r ∷ rs) index units =
    let (index', units') = group_step r index units in group_from rs index' units'

unfoldable pub group_units : List Receivable → List ReceivableUnit
unfolding group_from group_step
group_units rs = group_from rs [] []
