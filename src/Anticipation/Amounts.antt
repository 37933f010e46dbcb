-- ===== src/Anticipation/Amounts.antt =====
-- `Simulate`: which receivables it accepts, and what the offer adds up to.
use mathlib.Core.List.{append-nil, append_assoc}
use adquirente.Base.{
  ◌+◌, ◌%◌, ◌≡◌, refl, ap, ◌∙◌, Bool-cases, true, inl, inr, String, str_eq, List, [], ◌∷◌, ◌++◌,
  All, map, arith, eq_iff,
}
use adquirente.Base.Int64.{
  bits-lt, full_range, sub64, sub64-Fits, bits-sub64, eq_of_bits, int64_laws,
}
use adquirente.Shared.Error.{ok, Result-cases}
use adquirente.Shared.Money.{Money, Bps, sum, sum_from}
use adquirente.Shared.Money.Sums.{bits_total, sum-bits, sum-Fits}
use adquirente.Shared.Time.{Time}
use adquirente.Receivable.{Receivable, is_anticipable, days_until_due}
use adquirente.Anticipation.{Anticipation, Item, Pricer, add_item, price_all, blank, simulate}

-- A receivable of the merchant that may still be sold.
abbrev pub IsOffered : String → Time → Receivable → Type 0
IsOffered merchant_id today r = (r.merchant_id ≡ merchant_id) × (is_anticipable today r ≡ true)

abbrev pub price : Time → Bps → Pricer → Receivable → Money
price today rate pricer r = pricer r.net (days_until_due today r) rate

abbrev item_of : Time → Bps → Pricer → Receivable → Item
item_of today rate pricer r = record {
  receivable_id = r.id;
  due_date = r.due_date;
  days = days_until_due today r;
  net = r.net;
  present_value = price today rate pricer r;
  discount = sub64 r.net (price today rate pricer r);
}

abbrev nets : List Receivable → List Money
nets = map (λ r. r.net)

abbrev prices : Time → Bps → Pricer → List Receivable → List Money
prices today rate pricer = map (price today rate pricer)

-- What the loop makes of the offer.
abbrev offered : Time → Bps → Pricer → List Receivable → Anticipation → Anticipation
offered today rate pricer rs a = record a {
  items = a.items ++ map (item_of today rate pricer) rs;
  gross = sum_from a.gross (nets rs);
  net = sum_from a.net (prices today rate pricer rs);
}

price_all-offered :
    (merchant_id : String) (today : Time) (rate : Bps) (pricer : Pricer) (rs : List Receivable)
    (a : Anticipation)
    → All (IsOffered merchant_id today) rs
    → price_all merchant_id today rate pricer rs a ≡ ok (offered today rate pricer rs a)
unfolding price_all sum_from
price_all-offered m today rate pricer [] a h = simp append-nil
price_all-offered m today rate pricer (r ∷ rs) a ((owner, unsold), h) =
    rw ((eq_iff r.merchant_id m).1 owner, unsold)
      (price_all-offered m today rate pricer rs
          (add_item r (days_until_due today r) (price today rate pricer r) a) h
        ∙ simp append_assoc)

price_all-IsOffered :
    (merchant_id : String) (today : Time) (rate : Bps) (pricer : Pricer) (rs : List Receivable)
    (a : Anticipation) {b : Anticipation}
    → price_all merchant_id today rate pricer rs a ≡ ok b
    → All (IsOffered merchant_id today) rs
unfolding price_all
price_all-IsOffered m today rate pricer [] a h = tt
price_all-IsOffered m today rate pricer (r ∷ rs) a h = elim (Bool-cases (str_eq r.merchant_id m)) [
  | inr other ↦ absurd (cc (rw other at h))
  | inl owner ↦ elim (Bool-cases (is_anticipable today r)) [
    | inr shut ↦ absurd (cc (rw (owner, shut) at h))
    | inl unsold ↦ (
      ((eq_iff r.merchant_id m).0 owner, unsold),
      price_all-IsOffered m today rate pricer rs
          (add_item r (days_until_due today r) (price today rate pricer r) a)
          (rw (owner, unsold) at h),
    )
  ]
]

discounts-bits :
    (today : Time) (rate : Bps) (pricer : Pricer) (rs : List Receivable)
    → (bits_total (map (λ i. i.discount) (map (item_of today rate pricer) rs))
          + bits_total (prices today rate pricer rs))
        % full_range
      ≡ bits_total (nets rs) % full_range
discounts-bits today rate pricer [] = refl
discounts-bits today rate pricer (r ∷ rs) = omega (
  arith,
  discounts-bits today rate pricer rs,
  bits-sub64 r.net (price today rate pricer r),
  bits-lt r.net,
  bits-lt (price today rate pricer r),
)

-- What an offer adds up to.
pub record Offers (rs : List Receivable) (today : Time) (rate : Bps) (pricer : Pricer)
    (a : Anticipation) : Type 0 where
  pub ids : map (λ i. i.receivable_id) a.items ≡ map (λ r. r.id) rs
  pub gross_total : a.gross ≡ sum (nets rs)
  pub net_total : a.net ≡ sum (prices today rate pricer rs)
  pub discount_total : a.discount ≡ sub64 a.gross a.net
  pub discounts_add : sum (map (λ i. i.discount) a.items) ≡ a.discount

map_ids :
    (today : Time) (rate : Bps) (pricer : Pricer) (rs : List Receivable)
    → map (λ i. i.receivable_id) (map (item_of today rate pricer) rs) ≡ map (λ r. r.id) rs
map_ids today rate pricer [] = refl
map_ids today rate pricer (r ∷ rs) = ap (λ l. r.id ∷ l) (map_ids today rate pricer rs)

discounts_sum :
    (today : Time) (rate : Bps) (pricer : Pricer) (rs : List Receivable)
    → sum (map (λ i. i.discount) (map (item_of today rate pricer) rs))
      ≡ sub64 (sum (nets rs)) (sum (prices today rate pricer rs))
discounts_sum today rate pricer rs =
    let ds = map (λ i. i.discount) (map (item_of today rate pricer) rs) in
    eq_of_bits (sum ds) _ (sum-Fits ds) (sub64-Fits _ _) (
      omega (
        int64_laws,
        sum-bits ds,
        sum-bits (nets rs),
        sum-bits (prices today rate pricer rs),
        discounts-bits today rate pricer rs,
        bits-sub64 (sum (nets rs)) (sum (prices today rate pricer rs)),
      ))

-- A simulation of at least one receivable succeeds exactly if all of them belong to the merchant and
-- may still be sold. The offer then lists them in their order, its gross amount is the sum of their
-- nets, its net amount the sum of their prices, and the discounts of its items add up to its
-- discount, which is the gross amount less the net one; all this for any pricer.
pub simulate_iff :
    (id merchant_id : String) (r : Receivable) (rs : List Receivable) (today : Time) (rate : Bps)
    (pricer : Pricer)
    → (All (IsOffered merchant_id today) (r ∷ rs)
        → (a : Anticipation) × (simulate id merchant_id (r ∷ rs) today rate pricer ≡ ok a)
          × Offers (r ∷ rs) today rate pricer a)
      × ((a : Anticipation)
          → simulate id merchant_id (r ∷ rs) today rate pricer ≡ ok a
          → All (IsOffered merchant_id today) (r ∷ rs))
unfolding simulate sum
simulate_iff id m r rs today rate pricer =
    let start = blank id m rate today in
    let a = offered today rate pricer (r ∷ rs) start in
    (
      (λ h. (
        record a { discount = sub64 a.gross a.net },
        rw (price_all-offered m today rate pricer (r ∷ rs) start h),
        record {
          ids = map_ids today rate pricer (r ∷ rs);
          gross_total = refl;
          net_total = refl;
          discount_total = refl;
          discounts_add = discounts_sum today rate pricer (r ∷ rs);
        },
      )),
      λ b h. elim (Result-cases (price_all m today rate pricer (r ∷ rs) start)) [
        | inl (c, priced) ↦ price_all-IsOffered m today rate pricer (r ∷ rs) start priced
        | inr (e, failed) ↦ absurd (cc (rw failed at h))
      ],
    )
