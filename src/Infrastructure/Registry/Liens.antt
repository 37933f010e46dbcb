-- ===== src/Infrastructure/Registry/Liens.antt =====
-- What the registry answers, and who owns a receivable.
use mathlib.Core.List.{Memᴰ}
use mathlib.Core.List.Memᴰ.{head, tail}
use adquirente.Base.{
  ◌≡◌, refl, sym, ap, ◌∙◌, ◌↔◌, inl, inr, Bool, Bool-cases, true, false, ◌||◌, String, str_eq,
  eq_iff, arith, Option, some, List, [], ◌∷◌, if◌then◌else◌,
}
use adquirente.Base.Assoc.{lookup, insert, lookup-insert, string_eq}
use adquirente.Shared.Time.{Time, date_only}
use adquirente.Receivable.{Lien}
use adquirente.Store.Dues.{is_listed}
use adquirente.Infrastructure.Registry.{Fake, is_on, liens_on, transfer}

liens_on-mem :
    (merchant_id : String) (due_date : Time) {l : Lien} (ls : List Lien)
    → Memᴰ l (liens_on merchant_id due_date ls)
    → Memᴰ l ls × (is_on merchant_id due_date l ≡ true)
liens_on-mem merchant_id due_date [] m = elim m [ ]
liens_on-mem merchant_id due_date {l} (x ∷ xs) m =
    elim (Bool-cases (is_on merchant_id due_date x)) [
      | inl on ↦ elim (rw on at m) [
        | head e ↦ (head e, ap (is_on merchant_id due_date) e ∙ on)
        | tail n ↦ let (there, fits) = liens_on-mem merchant_id due_date xs n in (tail there, fits)
      ]
      | inr off ↦
          let (there, fits) = liens_on-mem merchant_id due_date xs (rw off at m) in
          (tail there, fits)
    ]

mem-liens_on :
    (merchant_id : String) (due_date : Time) {l : Lien} (ls : List Lien)
    → Memᴰ l ls
    → is_on merchant_id due_date l ≡ true
    → Memᴰ l (liens_on merchant_id due_date ls)
mem-liens_on merchant_id due_date [] m fits = elim m [ ]
mem-liens_on merchant_id due_date (x ∷ xs) (head e) fits =
    let on : is_on merchant_id due_date x ≡ true = ap (is_on merchant_id due_date) (sym e) ∙ fits in
    rw on (head e)
mem-liens_on merchant_id due_date (x ∷ xs) (tail m) fits =
    elim (Bool-cases (is_on merchant_id due_date x)) [
      | inl on ↦ rw on (tail (mem-liens_on merchant_id due_date xs m fits))
      | inr off ↦ rw off (mem-liens_on merchant_id due_date xs m fits)
    ]

is_on_iff :
    (merchant_id : String) (due_date : Time) (l : Lien)
    → (is_on merchant_id due_date l ≡ true)
      ↔ ((l.merchant_id ≡ merchant_id) × (l.due_date ≡ date_only due_date))
is_on_iff merchant_id due_date l = ground (arith, eq_iff l.merchant_id merchant_id)

-- The registry answers with exactly the liens on the merchant that are due on the day.
pub check_liens_iff :
    (f : Fake) (merchant_id : String) (due_date : Time) (l : Lien)
    → Memᴰ l (liens_on merchant_id due_date f.liens)
      ↔ (Memᴰ l f.liens × (l.merchant_id ≡ merchant_id) × (l.due_date ≡ date_only due_date))
check_liens_iff f merchant_id due_date l = (
  (λ m.
      let (there, fits) = liens_on-mem merchant_id due_date f.liens m in
      let (own, on) = (is_on_iff merchant_id due_date l).0 fits in (there, own, on)),
  λ (there, own, on).
      mem-liens_on merchant_id due_date f.liens there
        ((is_on_iff merchant_id due_date l).1 (own, on)),
)

either_way :
    (a b : Bool) (s o : Option String)
    → (if b then s else if a then s else o) ≡ (if a || b then s else o)
either_way true true s o = refl
either_way true false s o = refl
either_way false b s o = refl

-- After a transfer, the receivables of the list have the new owner, and all others keep theirs.
pub lookup-transfer :
    (new_owner : String) (ids : List String) (owners : List (String × String)) (id : String)
    → lookup id (transfer new_owner ids owners)
      ≡ (if is_listed id ids then some new_owner else lookup id owners)
unfolding transfer
lookup-transfer new_owner [] owners id = refl
lookup-transfer new_owner (x ∷ xs) owners id =
    lookup-transfer new_owner xs (insert x new_owner owners) id
    ∙ ap (λ o. if is_listed id xs then some new_owner else o) (lookup-insert x id new_owner owners)
    ∙ either_way (str_eq x id) (is_listed id xs) (some new_owner) (lookup id owners)
