-- ===== src/Settlement/Build/Lots.antt =====
-- The loop of `Build` over the receivables: what it accepts, and what it adds up.
use native.Mathlib.Nat.{add-zero, add_assoc}
use mathlib.Core.List.{append-nil, append_assoc}
use adquirente.Base.{
  ℕ, ◌+◌, ◌≤◌, ◌<◌, ◌≡◌, ◌∙◌, Bool, true, false, String, List, [], ◌∷◌, ◌++◌, All, map, arith,
  ==_iff, eq_iff,
}
use adquirente.Base.Int.{pos, pos_part, eq-pos_part, ◌≤ℤ◌}
use adquirente.Base.Int64.{half_range, add64_pos}
use adquirente.Shared.Error.{ok}
use adquirente.Shared.Money.{Money}
use adquirente.Shared.Time.{Time}
use adquirente.Receivable.{Receivable, scheduled, anticipated, settled, canceled, chargebacked}
use adquirente.Receivable as Due
use adquirente.Settlement.{Settlement}
use adquirente.Settlement.Build.{add_due, collect}

-- What of a net amount is payable today, and what was paid before.
abbrev pub payable_of : Due.Status → Money → ℕ
payable_of scheduled v = pos_part v
payable_of _ v = 0

abbrev pub retained_of : Due.Status → Money → ℕ
retained_of anticipated v = pos_part v
retained_of _ v = 0

-- The exact sums of the amounts that are due to the merchant, and of those that were anticipated.
abbrev pub payable_sum : List Receivable → ℕ
payable_sum [] = 0
payable_sum (r ∷ rs) = payable_of r.status r.net + payable_sum rs

abbrev pub retained_sum : List Receivable → ℕ
retained_sum [] = 0
retained_sum (r ∷ rs) = retained_of r.status r.net + retained_sum rs

abbrev pub is_open : Due.Status → Bool
is_open scheduled = true
is_open anticipated = true
is_open _ = false

-- A receivable that a settlement of the day may take.
abbrev pub IsPayable : String → Time → Receivable → Type 0
IsPayable merchant_id day r =
    (r.merchant_id ≡ merchant_id) × (r.due_date ≡ day) × (is_open r.status ≡ true)

payable_of-le : (status : Due.Status) (v : Money) → payable_of status v ≤ pos_part v
payable_of-le status v = ground arith

retained_of-le : (status : Due.Status) (v : Money) → retained_of status v ≤ pos_part v
retained_of-le status v = ground arith

-- A settlement under construction, with exact sums.
abbrev pub tallied : Settlement → ℕ → ℕ → List String → Settlement
tallied s t q ids = record s { total = pos t; retained = pos q; receivable_ids = ids }

add_due_lem :
    (status : Due.Status) (r : Receivable) (s : Settlement) (t q p n : ℕ) (ids : List String)
    → r.net ≡ pos n
    → t + n < half_range
    → q + n < half_range
    → p + n < half_range
    → is_open status ≡ true
    → add_due status r (tallied s t q ids) (pos p)
      ≡ ok (
        tallied s (t + n) (q + retained_of status r.net) (ids ++ r.id ∷ []),
        pos (p + payable_of status r.net),
      )
add_due_lem scheduled r s t q p n ids e ht hq hp o =
    rw (e, add64_pos t n ht, add64_pos p n hp, add-zero)
add_due_lem anticipated r s t q p n ids e ht hq hp o =
    rw (e, add64_pos t n ht, add64_pos q n hq, add-zero)
add_due_lem settled r s t q p n ids e ht hq hp o = cc
add_due_lem canceled r s t q p n ids e ht hq hp o = cc
add_due_lem chargebacked r s t q p n ids e ht hq hp o = cc

abbrev pub nets_sum : List Receivable → ℕ
nets_sum [] = 0
nets_sum (r ∷ rs) = pos_part r.net + nets_sum rs

abbrev pub NetsNonneg : List Receivable → Type 0
NetsNonneg = All (λ r. pos 0 ≤ℤ r.net)

-- The loop on receivables that the settlement may take, as long as the sum of them fits.
pub collect_lem :
    (merchant_id : String) (day : Time) (rs : List Receivable) (s : Settlement) (t q p : ℕ)
    (ids : List String)
    → All (IsPayable merchant_id day) rs
    → NetsNonneg rs
    → t + nets_sum rs < half_range
    → q + nets_sum rs < half_range
    → p + nets_sum rs < half_range
    → collect merchant_id day rs (tallied s t q ids) (pos p)
      ≡ ok (
        tallied s (t + nets_sum rs) (q + retained_sum rs) (ids ++ map (λ r. r.id) rs),
        pos (p + payable_sum rs),
      )
unfolding collect
collect_lem m day [] s t q p ids a n ht hq hp = simp (add-zero, append-nil)
collect_lem m day (r ∷ rs) s t q p ids ((owner, due, o), a) (n, ns) ht hq hp =
    let v = pos_part r.net in
    let e : r.net ≡ pos v = eq-pos_part r.net n in
    let le_q = retained_of-le r.status r.net in
    let le_p = payable_of-le r.status r.net in
    rw
      (
        (eq_iff r.merchant_id m).1 owner,
        (==_iff r.due_date day).1 due,
        add_due_lem r.status r s t q p v ids e (omega arith) (omega arith) (omega arith) o,
      )
      (collect_lem m day rs s (t + v) (q + retained_of r.status r.net)
          (p + payable_of r.status r.net) (ids ++ r.id ∷ []) a ns (omega arith) (omega arith)
          (omega arith)
        ∙ simp (add_assoc, append_assoc))
