-- ===== src/Http/Lists.antt =====
-- The page of receivables that a merchant gets.
use mathlib.Core.Path.{subst}
use mathlib.Core.List.{Memᴰ}
use mathlib.Core.List.Memᴰ.{head, tail}
use adquirente.Base.{
  ℕ, zero, suc, ◌≤◌, ◌≡◌, refl, sym, ap, ◌∙◌, ◌⊎◌, inl, inr, Bool, Bool-cases, true, false, ◌&&◌,
  String, str_eq, eq_iff, Option, none, some, List, [], ◌∷◌, length, arith, if◌then◌else◌,
}
use adquirente.Base.Int.{ℤ, pos_part}
use adquirente.Shared.Error.{Error, Result, ok, err}
use adquirente.Shared.Time.{Time}
use adquirente.Receivable.{Receivable}
use adquirente.Store.{World}
use adquirente.Store.Dues.{ListFilter, list_by_merchant, where_rows, limited}
use adquirente.Store.Dues.Effects.{query-ok}
use adquirente.Application.Scheduling.{list_receivables, page_limit}
use adquirente.Http.Answers.{Printing, to_receivable_responses}
use adquirente.Http.Replies.{Reply, receivables_body, problem, answer}
use adquirente.Http.Guards.{Principal, require_merchant}
use adquirente.Http.Dues.{DuesQuery, parse_date, with_dates, get_receivables}
use adquirente.Http.Isolation.{respond_error-IsFailure}

limited-mem : {r : Receivable} (n : ℕ) (rs : List Receivable) → Memᴰ r (limited n rs) → Memᴰ r rs
limited-mem zero rs m = elim m [ ]
limited-mem (suc n) [] m = elim m [ ]
limited-mem (suc n) (x ∷ xs) (head e) = head e
limited-mem (suc n) (x ∷ xs) (tail m) = tail (limited-mem n xs m)

length-limited : (n : ℕ) (rs : List Receivable) → length (limited n rs) ≤ n
length-limited zero rs = omega arith
length-limited (suc n) [] = omega arith
length-limited (suc n) (x ∷ xs) = omega (arith, length-limited n xs)

where_rows-mem :
    (test : Receivable → Bool) {r : Receivable} (rows : List (String × Receivable))
    → Memᴰ r (where_rows test rows)
    → test r ≡ true
where_rows-mem test [] m = elim m [ ]
where_rows-mem test {r} ((id, x) ∷ rows) m = elim (Bool-cases (test x)) [
  | inl kept ↦ elim (rw kept at m) [
    | head e ↦ ap test e ∙ kept
    | tail n ↦ where_rows-mem test rows n
  ]
  | inr dropped ↦ where_rows-mem test rows (rw dropped at m)
]

page_limit_small : (n : ℤ) → pos_part (page_limit n) ≤ 500
page_limit_small n = ground arith

first_true : (a b : Bool) → (a && b) ≡ true → a ≡ true
first_true true b h = refl
first_true false b h = h

-- The rows of a page.
abbrev pub IsPage : String → List Receivable → Type 0
IsPage merchant_id list =
    ((r : Receivable) → Memᴰ r list → r.merchant_id ≡ merchant_id) × (length list ≤ 500)

list_receivables-ok :
    (sorted : List Receivable → List Receivable) (merchant_id : String) (f : ListFilter) (limit : ℤ)
    (w : World)
    → ((rs : List Receivable) (r : Receivable) → Memᴰ r (sorted rs) → Memᴰ r rs)
    → {list : List Receivable} {w' : World}
    → list_receivables sorted merchant_id f limit w ≡ (ok list, w')
    → IsPage merchant_id list × (w'.database ≡ w.database)
unfolding list_by_merchant
list_receivables-ok sorted merchant_id f limit w only {list} h =
    let (rows, tables, same) = query-ok _ _ w h in
    let n = pos_part (page_limit limit) in
    (
      (
        (λ r m.
            let row = only _ r (limited-mem n (sorted _) (subst (λ rs. Memᴰ r rs) rows m)) in
            (eq_iff r.merchant_id merchant_id).0 (
              first_true (str_eq r.merchant_id merchant_id) _
                (where_rows-mem _ w.database.receivables row))),
        subst (λ rs. length rs ≤ 500) (sym rows)
            (omega (arith, length-limited n (sorted _), page_limit_small limit)),
      ),
      tables,
    )

-- The answer is a page of receivables of the merchant, or a failure.
abbrev pub IsPageOf : Printing → Principal → World → Reply × World → Type 0
IsPageOf pr p w (reply, w') =
    ((list : List Receivable) × (reply.status ≡ 200)
      × (reply.body ≡ receivables_body (to_receivable_responses pr list))
      × IsPage p.merchant_id list)
    ⊎ (400 ≤ reply.status)

module _ (pr : Printing) (text : Error → String) (parse : String → Option Time)
    (sorted : List Receivable → List Receivable) where
  abbrev shown : List Receivable → Reply
  shown list = record {
    status = 200;
    location = none;
    body = receivables_body (to_receivable_responses pr list);
  }

  answer-IsPageOf :
      (p : Principal) (w : World) (r : Result (List Receivable) × World)
      → ((list : List Receivable) (w' : World) → r ≡ (ok list, w') → IsPage p.merchant_id list)
      → IsPageOf pr p w (answer text shown r)
  answer-IsPageOf p w (ok list, w') page = inl (list, refl, refl, page list w' refl)
  answer-IsPageOf p w (err e, w') page = inr (respond_error-IsFailure text e)

  -- A merchant that lists its receivables gets at most 500 of them, and all of them its own.
  pub get_receivables-IsPageOf :
      ((rs : List Receivable) (r : Receivable) → Memᴰ r (sorted rs) → Memᴰ r rs)
      → (q : DuesQuery) (p : Principal) (w : World)
      → IsPageOf pr p w (get_receivables pr text parse sorted q p w)
  unfolding get_receivables require_merchant
  get_receivables-IsPageOf only q p w = elim (Bool-cases (str_eq p.merchant_id "")) [
    | inl nobody ↦ subst (λ b. IsPageOf pr p w (turned_away b)) (sym nobody) (inr (omega arith))
    | inr named ↦
        subst (λ b. IsPageOf pr p w (turned_away b)) (sym named)
          (listed (parse_date parse q.from) (parse_date parse q.to))
  ]
    where
      page : Option Time → Option Time → World → Reply × World
      page from to v = answer text shown (
          list_receivables sorted p.merchant_id
            (record { status = q.status; from = from; to = to; limit = 0 }) q.limit v)

      turned_away : Bool → Reply × World
      turned_away b =
          if b
          then (problem 403 "FORBIDDEN" "esta operação exige credencial de estabelecimento", w)
          else with_dates (parse_date parse q.from) (parse_date parse q.to) page w

      listed : (from to : Option (Option Time)) → IsPageOf pr p w (with_dates from to page w)
      listed none to = inr (omega arith)
      listed (some from) none = inr (omega arith)
      listed (some from) (some to) = answer-IsPageOf p w _ λ list w' h.
          (list_receivables-ok sorted p.merchant_id
            (record { status = q.status; from = from; to = to; limit = 0 }) q.limit w only h).0
