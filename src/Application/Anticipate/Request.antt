-- ===== src/Application/Anticipate/Request.antt =====
-- The sale of receivables is one change of the tables, or none, and is never made against a lien.
use mathlib.Core.Path.{subst}
use adquirente.Base.{
  inl, inr, Bool-cases, ◌==◌, ==_iff, All, ◌≡◌, refl, sym, ap, ◌∙◌, length, true, String, str_eq,
  ◌&&◌, Option, none, some, List, [], ◌∷◌, ◌++◌,
}
use adquirente.Base.Assoc.{lookup, insert, string_eq}
use adquirente.Shared.Error.{Error, Result, ok, err}
use adquirente.Merchant.{Merchant}
use adquirente.Receivable.{Receivable, Lien}
use adquirente.Shared.Time.{Time}
use adquirente.Anticipation.{Anticipation, confirm, pull_events, item_ids}
use adquirente.Ledger.{balanced, for_anticipation}
use adquirente.Store.{
  Database, World, ownership_transferred, call, pure, continue_with, ◌>>=◌, unit_of_work,
}
use adquirente.Store.Laws.{
  SameRest, SameRest-trans, AllOrNothing, all_or_nothing, after_ok, lifted_ok, finish,
  in_unit_of_work,
}
use adquirente.Store.Failure.{FailsClean, query-IsReading, then-FailsClean, unit_of_work-FailsClean}
use adquirente.Store.Tables.{ok_injective}
use adquirente.Store.Rows.{insert_in-ok}
use adquirente.Store.Shops.{find_merchant, find_merchant-ok, read_merchant}
use adquirente.Store.Dues.{find_by_ids, update_all, where_rows, is_listed, with_receivables}
use adquirente.Store.Dues.Effects.{UpdatedAll, update_all-ok, query-ok}
use adquirente.Store.Papers.{create_anticipation, anticipations_of, with_anticipations}
use adquirente.Store.Books.{append_events, append_entries}
use adquirente.Store.Books.Effects.{append_events-ok, append_entries-ok, with_events, with_entries}
use adquirente.Application.Anticipate.{
  Anticipator, is_seen, clear_day, all_found, offered, ensure_no_liens, confirmed_sale,
  pulled_anticipation, record_anticipation, agree, request,
}

first_clear :
    (answer : Result (List Lien)) (rest : Result (Unit {0}))
    → clear_day answer rest ≡ ok tt
    → (answer ≡ ok []) × (rest ≡ ok tt)
first_clear (err e) rest h = absurd cc
first_clear (ok []) rest h = (refl, h)
first_clear (ok (l ∷ ls)) rest h = absurd cc

-- The days that were asked for had no lien; nor had any other due date, if the loop ends well.
ensure_no_liens-clear :
    (liens_on : Time → Result (List Lien)) (seen : List Time) (rs : List Receivable)
    → ((t : Time) → is_seen t seen ≡ true → liens_on t ≡ ok [])
    → ensure_no_liens liens_on seen rs ≡ ok tt
    → All (λ r. liens_on r.due_date ≡ ok []) rs
unfolding ensure_no_liens
ensure_no_liens-clear liens_on seen [] asked h = tt
ensure_no_liens-clear liens_on seen (r ∷ rs) asked h = elim (Bool-cases (is_seen r.due_date seen)) [
  | inl before ↦
      (asked r.due_date before, ensure_no_liens-clear liens_on seen rs asked (rw before at h))
  | inr fresh ↦
      let (clear, rest) =
        first_clear (liens_on r.due_date) (ensure_no_liens liens_on (r.due_date ∷ seen) rs)
          (rw fresh at h) in
      (
        clear,
        ensure_no_liens-clear liens_on (r.due_date ∷ seen) rs
            (λ t again. elim (Bool-cases (r.due_date == t)) [
              | inl same ↦ ap liens_on (sym ((==_iff r.due_date t).0 same)) ∙ clear
              | inr other ↦ asked t (rw other at again)
            ])
            rest,
      )
]

-- The row of an anticipation.
abbrev pub with_sale : Anticipation → Database → Database
with_sale a db = with_anticipations (insert a.id (record a { events = [] }) db.anticipations) db

-- The confirmed anticipation was stored, with its receivables, balanced entries and the event.
abbrev pub Records :
    Anticipator → Anticipation → List Receivable → Database → Anticipation → Database → Type 0
Records s a rs db b db' =
    (lookup a.id db.anticipations ≡ none)
    × UpdatedAll rs db.receivables db'.receivables
    × (balanced (for_anticipation s.entry_id a s.now) ≡ true)
    × (db'
        ≡ with_events (pulled_anticipation a) (
            with_entries (for_anticipation s.entry_id a s.now)
              (with_receivables db'.receivables (with_sale a db))))
    × (b ≡ (pull_events a).1)

Records-ok :
    (s : Anticipator) (a : Anticipation) (rs : List Receivable) (w : World) {b : Anticipation}
    {w' : World}
    → record_anticipation s (a, rs) w ≡ (ok b, w')
    → Records s a rs w.database b w'.database × SameRest w w'
unfolding record_anticipation
Records-ok s a rs w h = after_ok (create_anticipation a w) _ h λ u1 v1 created h1.
    after_ok (update_all rs v1) _ h1 λ u2 v2 changed h2.
      after_ok (append_entries (for_anticipation s.entry_id a s.now) v2) _ h2 λ u3 v3 booked h3.
        after_ok (append_events (pulled_anticipation a) v3) _ h3 λ u4 v4 appended last.
          let (fresh, t1, s1) =
            insert_in-ok anticipations_of with_anticipations a.id (record a { events = [] }) w
              created in
          let (all, t2, s2) = update_all-ok rs v1 changed in
          let (fits, t3, s3) = append_entries-ok (for_anticipation s.entry_id a s.now) v2 booked in
          let (t4, s4) = append_events-ok (pulled_anticipation a) v3 appended in
          let dues = ap (λ db. db.receivables) (t4 ∙ ap (with_events (pulled_anticipation a)) t3) in
          let after_all : Database → Database = λ db.
            with_events (pulled_anticipation a)
              (with_entries (for_anticipation s.entry_id a s.now) db) in
          finish (λ b y. Records s a rs w.database b y.database × SameRest w y) (pull_events a).1 v4
            last
            (
              (
                fresh,
                subst (UpdatedAll rs w.database.receivables) (sym dues) (
                    subst (λ rows. UpdatedAll rs rows v2.database.receivables)
                      (ap (λ db. db.receivables) t1) all),
                fits,
                t4
                    ∙ ap (with_events (pulled_anticipation a)) t3
                    ∙ ap after_all (t2 ∙ ap (with_receivables v2.database.receivables) t1)
                    ∙ ap (λ rows. after_all (with_receivables rows (with_sale a w.database)))
                        (sym dues),
                refl,
              ),
              SameRest-trans w v1 v4 s1
                  (SameRest-trans v1 v2 v4 s2 (SameRest-trans v2 v3 v4 s3 s4)),
            )

-- The rows of the merchant that are named, as many as the names.
abbrev pub Named : Anticipator → String → List String → Database → List Receivable → Type 0
Named s merchant_id ids db rs =
    (rs
      ≡ s.by_id
          (where_rows (λ r. str_eq r.merchant_id merchant_id && is_listed r.id ids) db.receivables))
    × (length rs ≡ length ids)

all_found-Named :
    (s : Anticipator) (merchant_id : String) (ids : List String) (db : Database)
    (list : List Receivable) {rs : List Receivable}
    → s.by_id
        (where_rows (λ r. str_eq r.merchant_id merchant_id && is_listed r.id ids) db.receivables)
      ≡ list
    → all_found ids list ≡ ok rs
    → Named s merchant_id ids db rs
all_found-Named s merchant_id ids db list rows h = elim (Bool-cases (length list == length ids)) [
  | inl all ↦
      let same = ok_injective (rw all at h) in
      (sym (rows ∙ same), ap length (sym same) ∙ (==_iff (length list) (length ids)).0 all)
  | inr missing ↦ absurd (cc (rw missing at h))
]

-- The receivables were all found, offered without a lien, confirmed and recorded.
abbrev pub Agrees :
    Anticipator → String → List String → Merchant → Database → Anticipation → Database → Type 0
Agrees s merchant_id ids m db b db' =
    (rs : List Receivable) × (a : Anticipation) × (sale : Anticipation) × (sold : List Receivable)
    × Named s merchant_id ids db rs
    × (offered s merchant_id m rs ≡ ok a)
    × All (λ r. s.liens_of merchant_id r.due_date ≡ ok []) rs
    × (confirm s.event_id rs s.now a ≡ (sale, sold, none))
    × Records s sale sold db b db'

confirmed_sale-ok :
    (r : Anticipation × List Receivable × Option Error) {a : Anticipation} {rs : List Receivable}
    → confirmed_sale r ≡ ok (a, rs)
    → r ≡ (a, rs, none)
confirmed_sale-ok (b, rs, none) h =
    ap {A = Anticipation × List Receivable} {B = Anticipation × List Receivable × Option Error}
      (λ p. (p.0, p.1, none)) (ok_injective h)
confirmed_sale-ok (b, rs, some e) h = absurd cc

Agrees-ok :
    (s : Anticipator) (merchant_id : String) (ids : List String) (m : Merchant) (w : World)
    {b : Anticipation} {w' : World}
    → agree s merchant_id ids m w ≡ (ok b, w')
    → Agrees s merchant_id ids m w.database b w'.database × SameRest w w'
unfolding agree find_by_ids
Agrees-ok s merchant_id ids m w {b} {w'} h =
    after_ok (find_by_ids s.by_id merchant_id ids w) _ h λ list v listed h1.
      lifted_ok (all_found ids list) _ v h1 λ rs found h2.
        lifted_ok (offered s merchant_id m rs) _ v h2 λ a offer h3.
          lifted_ok (ensure_no_liens (s.liens_of merchant_id) [] rs) _ v h3 λ u clear h4.
            lifted_ok (confirmed_sale (confirm s.event_id rs s.now a)) _ v h4 λ p sale h5.
              let (rows, t1, s1) = query-ok s.by_id _ w listed in
              let (recorded, s2) = Records-ok s p.0 p.1 v h5 in
              (
                (
                  rs,
                  a,
                  p.0,
                  p.1,
                  all_found-Named s merchant_id ids w.database list (sym rows) found,
                  offer,
                  ensure_no_liens-clear (s.liens_of merchant_id) [] rs (λ t h. absurd cc) clear,
                  confirmed_sale-ok _ sale,
                  subst (λ db. Records s p.0 p.1 db b w'.database) t1 recorded,
                ),
                SameRest-trans w v w' s1 s2,
              )

-- The sale of the receivables, with the plan of the stored merchant; the registry was told once.
abbrev pub Requested : Anticipator → String → List String → World → Anticipation → World → Type 0
Requested s merchant_id ids w b w' =
    (m : Merchant) × (read_merchant (lookup merchant_id w.database.merchants) ≡ ok m)
    × Agrees s merchant_id ids m w.database b w'.database
    × (w'.calls ≡ w.calls ++ ownership_transferred (item_ids b) "ADQUIRENTE" ∷ [])

Requested-ok :
    (s : Anticipator) (merchant_id : String) (ids : List String) (w : World) (b : Anticipation)
    (w' : World)
    → request s merchant_id ids w ≡ (ok b, w')
    → Requested s merchant_id ids w b w'
unfolding request
Requested-ok s merchant_id ids w b w' h = after_ok (find_merchant merchant_id w) _ h λ m v found h1.
    after_ok (unit_of_work (agree s merchant_id ids m) v) _ h1 λ a x ran last.
      let (shop, t1, s1) = find_merchant-ok merchant_id w found in
      let (agreed, s2) =
        in_unit_of_work (λ y a z. Agrees s merchant_id ids m y.database a z.database × SameRest y z)
          _ v ran (λ y z inner. Agrees-ok s merchant_id ids m y inner) in
      finish (Requested s merchant_id ids w) a
        (record x { calls = x.calls ++ ownership_transferred (item_ids a) "ADQUIRENTE" ∷ [] }) last
        (
          m,
          shop,
          subst (λ db. Agrees s merchant_id ids m db a x.database) t1 agreed,
          ap (λ cs. cs ++ ownership_transferred (item_ids a) "ADQUIRENTE" ∷ []) (s2.1 ∙ s1.1),
        )

-- What follows the commit does not fail.
told_fails :
    (r : Result Anticipation × World) (db : Database)
    → ((e : Error) (w' : World) → r ≡ (err e, w') → w'.database ≡ db)
    → (e : Error) (w' : World)
    → continue_with (λ a. call (ownership_transferred (item_ids a) "ADQUIRENTE") >>= λ _. pure a) r
      ≡ (err e, w')
    → w'.database ≡ db
told_fails (ok a, w) db k e w' h = absurd (cc (ap (λ p. p.0) h))
told_fails (err x, w) db k e w' h = sym (ap (λ p. p.1.database) h) ∙ k x w refl

request-FailsClean :
    (s : Anticipator) (merchant_id : String) (ids : List String)
    → FailsClean (request s merchant_id ids)
unfolding request find_merchant
request-FailsClean s merchant_id ids =
    then-FailsClean (find_merchant merchant_id) _
      (query-IsReading λ db. read_merchant (lookup merchant_id db.merchants))
      λ m. λ v e w' h.
        told_fails (unit_of_work (agree s merchant_id ids m) v) v.database
          (unit_of_work-FailsClean (agree s merchant_id ids m) v) e w' h

-- A request that succeeds sold the receivables of the merchant that it names, as many as it names, at
-- the price that the offer simulates, where the registry answered for the due date of each that there
-- is no lien; it
-- stored the confirmed sale, the changed receivables, balanced entries and the event, and told the
-- registry of the new owner after that. A request that fails, at any point, left every table as it was.
pub request-Requested :
    (s : Anticipator) (merchant_id : String) (ids : List String) (w : World)
    → AllOrNothing (Requested s merchant_id ids) w (request s merchant_id ids w)
request-Requested s merchant_id ids w =
    all_or_nothing (Requested s merchant_id ids) w _ (Requested-ok s merchant_id ids w)
      (request-FailsClean s merchant_id ids w)
