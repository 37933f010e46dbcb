-- ===== src/Settlement/Build/Guards.antt =====
-- What `Build` refuses: it never settles what does not belong to the day, or is not open.
use adquirente.Base.{
  ℕ, ◌≡◌, refl, Bool-cases, true, inl, inr, String, str_eq, List, [], ◌∷◌, ◌==◌, All, ==_iff,
  eq_iff,
}
use adquirente.Shared.Error.{ok, >>=-eq-ok}
use adquirente.Shared.Money.{Money}
use adquirente.Shared.Time.{Time, date_only}
use adquirente.Merchant.{Merchant}
use adquirente.Receivable as Due
use adquirente.Receivable.{
  Receivable, Lien, scheduled, anticipated, settled, canceled, chargebacked,
}
use adquirente.Settlement.{Settlement}
use adquirente.Settlement.Build.{add_due, collect, pay_out, blank, build}
use adquirente.Settlement.Build.Lots.{IsPayable, is_open}
use adquirente.Base.Int.{pos}

add_due-open :
    (status : Due.Status) (r : Receivable) (s : Settlement) (p : Money) {t : Settlement × Money}
    → add_due status r s p ≡ ok t
    → is_open status ≡ true
add_due-open scheduled r s p h = refl
add_due-open anticipated r s p h = refl
add_due-open settled r s p h = cc
add_due-open canceled r s p h = cc
add_due-open chargebacked r s p h = cc

collect-IsPayable :
    (merchant_id : String) (day : Time) (rs : List Receivable) (s : Settlement) (p : Money)
    {t : Settlement × Money}
    → collect merchant_id day rs s p ≡ ok t
    → All (IsPayable merchant_id day) rs
unfolding collect
collect-IsPayable m day [] s p h = tt
collect-IsPayable m day (r ∷ rs) s p h = elim (Bool-cases (str_eq r.merchant_id m)) [
  | inr other ↦ absurd (cc (rw other at h))
  | inl owner ↦ elim (Bool-cases (r.due_date == day)) [
    | inr other_day ↦ absurd (cc (rw (owner, other_day) at h))
    | inl due ↦
        let ((s', p'), added, rest) =
          >>=-eq-ok (add_due r.status r s p) (λ t. collect m day rs t.0 t.1)
            (rw (owner, due) at h) in
        (
          (
            (eq_iff r.merchant_id m).0 owner,
            (==_iff r.due_date day).0 due,
            add_due-open r.status r s p added,
          ),
          collect-IsPayable m day rs s' p' rest,
        )
  ]
]

-- Whatever the liens, a settlement is built only of receivables that belong to the merchant, fall due
-- on the day, and are scheduled or anticipated.
pub build-IsPayable :
    (id : String) (new_id : ℕ → String) (date : Time) (m : Merchant) (rs : List Receivable)
    (liens : List Lien) (now : Time) {s : Settlement}
    → build id new_id date m rs liens now ≡ ok s
    → All (IsPayable m.id (date_only date)) rs
unfolding build
build-IsPayable id new_id date m [] liens now h = tt
build-IsPayable id new_id date m (r ∷ rs) liens now h =
    let (lot, collected, built) =
      >>=-eq-ok (collect m.id (date_only date) (r ∷ rs) (blank id (date_only date) m now) (pos 0))
        (λ lot. ok (pay_out new_id m liens lot)) h in
    collect-IsPayable m.id (date_only date) (r ∷ rs) (blank id (date_only date) m now) (pos 0)
      collected
