-- ===== src/Application/SettleDue/Lots.antt =====
-- What the settlement of one merchant's lot does, whether the bank takes it or not.
use mathlib.Core.Path.{subst}
use adquirente.Base.{
  inl, inr, suc, ◌≡◌, refl, sym, ap, ◌∙◌, String, none, some, List, [], ◌∷◌, ◌++◌,
}
use adquirente.Base.Assoc.{lookup, insert, string_eq}
use adquirente.Shared.Error.{Result, ok, err, Outcome}
use adquirente.Shared.Time.{Time}
use adquirente.Merchant.{Merchant}
use adquirente.Base.Int.{pos}
use adquirente.Base.Int64.{add64}
use adquirente.Store.Tables.{ok_injective}
use adquirente.Receivable.{Receivable, Lien, settled, settle}
use adquirente.Receivable.Graph.{◌⟶◌, settle_call, perform_cases}
use adquirente.Settlement.{Settlement, mark_sent, mark_confirmed, mark_failed}
use adquirente.Settlement.Build.{build}
use adquirente.Ledger.{Entry, for_settlement}
use adquirente.Store.{Database, World, payment_sent}
use adquirente.Store.Laws.{
  SameRest, SameRest-trans, after_ok, applied_ok, lifted_ok, finish, plain, same_world,
}
use adquirente.Store.Rows.{insert_in-ok, update_in-ok}
use adquirente.Store.Shops.{find_merchant, find_merchant-ok, read_merchant}
use adquirente.Store.Dues.{update_all, with_receivables}
use adquirente.Store.Dues.Effects.{UpdatedAll, update_all-ok}
use adquirente.Store.Papers.{
  create_settlement, update_settlement, settlements_of, with_settlements, settlement_row,
  set_settlement,
}
use adquirente.Store.Books.{append_events}
use adquirente.Store.Books.Effects.{
  append_events-ok, append_entries-ok, with_events, with_entries, no_entries,
}
use adquirente.Application.SettleDue.{
  Answer, accepted, rejected, Draws, Report, Settler, settled_next, settle_all, pulled_settlement,
  book_payment, note_failure, add_paid, note_payment, after_answer, settle_merchant,
}

-- The row of a settlement, after an update.
abbrev pub with_row : Settlement → Settlement → Database → Database
with_row st old db = with_settlements (insert st.id (set_settlement st old) db.settlements) db

-- The bank rejected the lot: the settlement is marked as failed and announced; nothing else changed.
abbrev pub Fails : Draws → String → Time → Settlement → Report → World → Report → World → Type 0
Fails d reason now st rep w rep' w' =
    (failed : Settlement) × (old : Settlement) × (mark_failed d.event_id reason now st
      ≡ (failed, none))
    × (lookup failed.id w.database.settlements ≡ some old)
    × (w'.database ≡ with_events (pulled_settlement failed) (with_row failed old w.database))
    × (rep' ≡ record rep { failed = suc rep.failed })
    × SameRest w w'

note_failure-ok :
    (d : Draws) (reason : String) (now : Time) (st : Settlement) (rep : Report) (w : World)
    {rep' : Report} {w' : World}
    → note_failure d reason now st rep w ≡ (ok rep', w')
    → Fails d reason now st rep w rep' w'
unfolding note_failure
note_failure-ok d reason now st rep w h =
    applied_ok (mark_failed d.event_id reason now st) _ w h λ failed method h1.
      after_ok (update_settlement failed w) _ h1 λ u v updated h2.
        after_ok (append_events (pulled_settlement failed) v) _ h2 λ u' x appended last.
          let (old, found, older, t1, s1) =
            update_in-ok settlements_of with_settlements failed.id _ (set_settlement failed) w
              updated in
          let (t2, s2) = append_events-ok (pulled_settlement failed) v appended in
          finish (Fails d reason now st rep w) (record rep { failed = suc rep.failed }) x last
            (
              failed,
              old,
              method,
              found,
              t2 ∙ ap (with_events (pulled_settlement failed)) t1,
              refl,
              SameRest-trans w v x s1 s2,
            )

-- Each receivable was still to be settled, and became settled by this settlement, at its next version.
abbrev pub SettledAll : String → Time → List Receivable → List Receivable → Type 0
SettledAll id now [] [] = Unit
SettledAll id now [] (r' ∷ rs') = ⊥
SettledAll id now (r ∷ rs) [] = ⊥
SettledAll id now (r ∷ rs) (r' ∷ rs') =
    (r.status ⟶ settled)
    × (r' ≡ record r {
      status = settled;
      version = add64 r.version (pos 1);
      updated_at = now;
      settlement_id = id;
    })
    × SettledAll id now rs rs'

next_settled :
    (o : Outcome Receivable) (rest : Result (List Receivable)) {rs' : List Receivable}
    → settled_next o rest ≡ ok rs'
    → (r' : Receivable) × (later : List Receivable) × (o ≡ (r', none))
      × (rest ≡ ok later)
      × (r' ∷ later ≡ rs')
next_settled (r, some e) rest h = absurd cc
next_settled (r, none) (err e) h = absurd cc
next_settled (r, none) (ok later) h = (r, later, refl, refl, ok_injective h)

settle_all-SettledAll :
    (id : String) (now : Time) (rs : List Receivable) {rs' : List Receivable}
    → settle_all id now rs ≡ ok rs'
    → SettledAll id now rs rs'
unfolding settle_all
settle_all-SettledAll id now [] h = subst (SettledAll id now []) (ok_injective h) tt
settle_all-SettledAll id now (r ∷ rs) h =
    let (r', later, called, rest, whole) =
      next_settled (settle id now r) (settle_all id now rs) h in
    subst (SettledAll id now (r ∷ rs)) whole (elim (perform_cases (settle_call id) now r) [
      | inl (edge, eq) ↦
          (edge, ap (λ o. o.0) (sym called ∙ eq), settle_all-SettledAll id now rs rest)
      | inr (no_edge, eq) ↦ absurd (cc (called, eq))
    ])

-- The bank took the lot: every receivable of it is settled by this settlement, which is confirmed
-- and announced, and the payment is booked by balanced entries.
abbrev pub Pays :
    Draws → String → Time → List Receivable → Settlement → Report → World → Report → World → Type 0
Pays d ref now rs st rep w rep' w' =
    (sent : Settlement) × (paid : Settlement) × (rs' : List Receivable) × (old : Settlement)
    × (mark_sent ref now st ≡ (sent, none))
    × (mark_confirmed d.event_id now sent ≡ (paid, none))
    × SettledAll paid.id now rs rs'
    × UpdatedAll rs' w.database.receivables w'.database.receivables
    × (lookup paid.id w.database.settlements ≡ some old)
    × (w'.database
        ≡ with_events (pulled_settlement paid) (
            with_entries (for_settlement d.entry_id paid now)
              (with_row paid old (with_receivables w'.database.receivables w.database))))
    × (rep' ≡ add_paid paid rep)
    × SameRest w w'

-- Entries that are not booked when there are none.
abbrev BooksPayment : List Entry → World → World → Type 0
BooksPayment es w w' = (w'.database ≡ with_entries es w.database) × SameRest w w'

book_payment-ok :
    (es : List Entry) (w : World) {u : Unit {0}} {w' : World}
    → book_payment es w ≡ (ok u, w')
    → BooksPayment es w w'
book_payment-ok [] w h =
    finish (λ u v. BooksPayment [] w v) tt w h (no_entries w.database, (refl, refl))
book_payment-ok (e ∷ es) w h =
    let (fits, tables, same) = append_entries-ok (e ∷ es) w h in (tables, same)

note_payment-ok :
    (d : Draws) (ref : String) (now : Time) (rs : List Receivable) (st : Settlement) (rep : Report)
    (w : World) {rep' : Report} {w' : World}
    → note_payment d ref now rs st rep w ≡ (ok rep', w')
    → Pays d ref now rs st rep w rep' w'
unfolding note_payment
note_payment-ok d ref now rs st rep w h = applied_ok (mark_sent ref now st) _ w h λ sent method h1.
    applied_ok (mark_confirmed d.event_id now sent) _ w h1 λ paid method' h2.
      lifted_ok (settle_all paid.id now rs) _ w h2 λ rs' settled h3.
        after_ok (update_all rs' w) _ h3 λ u1 v1 changed h4.
          after_ok (update_settlement paid v1) _ h4 λ u2 v2 updated h5.
            after_ok (book_payment (for_settlement d.entry_id paid now) v2) _ h5 λ u3 v3 booked h6.
              after_ok (append_events (pulled_settlement paid) v3) _ h6 λ u4 v4 appended last.
                let (all, t1, s1) = update_all-ok rs' w changed in
                let (old, found, older, t2, s2) =
                  update_in-ok settlements_of with_settlements paid.id _ (set_settlement paid) v1
                    updated in
                let (t3, s3) = book_payment-ok (for_settlement d.entry_id paid now) v2 booked in
                let (t4, s4) = append_events-ok (pulled_settlement paid) v3 appended in
                let end =
                  t4
                  ∙ ap (with_events (pulled_settlement paid))
                      (t3 ∙ ap (with_entries (for_settlement d.entry_id paid now)) t2) in
                let dues = ap (λ db. db.receivables) end in
                finish (Pays d ref now rs st rep w) (add_paid paid rep) v4 last (
                  sent,
                  paid,
                  rs',
                  old,
                  method,
                  method',
                  settle_all-SettledAll paid.id now rs settled,
                  subst (UpdatedAll rs' w.database.receivables) (sym dues) all,
                  sym (ap (λ db. lookup paid.id db.settlements) t1) ∙ found,
                  end
                      ∙ ap
                          (λ db. with_events (pulled_settlement paid) (
                            with_entries (for_settlement d.entry_id paid now)
                              (with_row paid old db)))
                          (t1 ∙ ap (λ rows. with_receivables rows w.database) (sym dues)),
                  refl,
                  SameRest-trans w v1 v4 s1
                      (SameRest-trans v1 v2 v4 s2 (SameRest-trans v2 v3 v4 s3 s4)),
                )

abbrev pub FollowsAnswer :
    Answer → Draws → Time → List Receivable → Settlement → Report → World → Report → World → Type 0
FollowsAnswer (accepted ref) d now rs st rep w rep' w' = Pays d ref now rs st rep w rep' w'
FollowsAnswer (rejected reason) d now rs st rep w rep' w' = Fails d reason now st rep w rep' w'

after_answer-ok :
    (answer : Answer) (d : Draws) (now : Time) (rs : List Receivable) (st : Settlement)
    (rep : Report) (w : World) {rep' : Report} {w' : World}
    → after_answer answer d now rs st rep w ≡ (ok rep', w')
    → FollowsAnswer answer d now rs st rep w rep' w'
after_answer-ok (accepted ref) d now rs st rep w h = note_payment-ok d ref now rs st rep w h
after_answer-ok (rejected reason) d now rs st rep w h = note_failure-ok d reason now st rep w h

-- What follows does not depend on the faults that are still to come.
FollowsAnswer-from :
    (answer : Answer) (d : Draws) (now : Time) (rs : List Receivable) (st : Settlement)
    (rep : Report) (w v : World) (rep' : Report) (w' : World)
    → plain v ≡ plain w
    → FollowsAnswer answer d now rs st rep v rep' w'
    → FollowsAnswer answer d now rs st rep w rep' w'
FollowsAnswer-from (accepted ref) d now rs st rep w v rep' w' eq h =
    subst (λ x. Pays d ref now rs st rep x rep' w') eq h
FollowsAnswer-from (rejected reason) d now rs st rep w v rep' w' eq h =
    subst (λ x. Fails d reason now st rep x rep' w') eq h

-- The world in which the bank answers: the new settlement is stored, and the payment is sent.
abbrev pub asking : Settlement → World → World
asking st w = record w {
  database = with_settlements (insert st.id (settlement_row st) w.database.settlements) w.database;
  calls = w.calls ++ payment_sent st ∷ [];
}

-- The settlement of a lot.
abbrev pub Settles :
    Settler → Draws → Time → String → List Receivable → Report → World → Report → World → Type 0
Settles s d day merchant_id rs rep w rep' w' =
    (m : Merchant) × (liens : List Lien) × (st : Settlement) × (read_merchant
        (lookup merchant_id w.database.merchants)
      ≡ ok m)
    × (s.liens_of merchant_id day ≡ ok liens)
    × (build d.settlement_id d.order_id day m rs liens s.now ≡ ok st)
    × (lookup st.id w.database.settlements ≡ none)
    × FollowsAnswer (s.send st) d s.now rs st (record rep { merchants = suc rep.merchants })
        (asking st w) rep' w'

-- The settlement of a merchant's lot that succeeds read the merchant and its liens, built the
-- settlement of the lot from them, stored it under a new key and sent it to the bank once. If the
-- bank took it, each receivable of the lot was scheduled or anticipated and is now settled by this
-- settlement, at its next version, and the settlement was confirmed, booked and announced; if the bank rejected it, the settlement was marked as failed and announced, and no
-- receivable changed.
pub settle_merchant-Settles :
    (s : Settler) (d : Draws) (day : Time) (merchant_id : String) (rs : List Receivable)
    (rep : Report) (w : World) (rep' : Report) (w' : World)
    → settle_merchant s d day merchant_id rs rep w ≡ (ok rep', w')
    → Settles s d day merchant_id rs rep w rep' w'
unfolding settle_merchant
settle_merchant-Settles s d day merchant_id rs rep w rep' w' h =
    after_ok (find_merchant merchant_id w) _ h λ m v read h1.
      lifted_ok (s.liens_of merchant_id day) _ v h1 λ liens listed h2.
        lifted_ok (build d.settlement_id d.order_id day m rs liens s.now) _ v h2 λ st built h3.
          after_ok (create_settlement st v) _ h3 λ u x created h4.
            let (shop, t1, s1) = find_merchant-ok merchant_id w read in
            let (fresh, t2, s2) =
              insert_in-ok settlements_of with_settlements st.id (settlement_row st) v created in
            (
              m,
              liens,
              st,
              shop,
              listed,
              built,
              sym (ap (λ db. lookup st.id db.settlements) t1) ∙ fresh,
              FollowsAnswer-from (s.send st) d s.now rs st _ (asking st w) _ _ _
                  (same_world (asking st w) (record x { calls = x.calls ++ payment_sent st ∷ [] })
                    (t2
                      ∙ ap
                          (λ db.
                            with_settlements (insert st.id (settlement_row st) db.settlements) db)
                          t1)
                    (s2.0 ∙ s1.0) (ap (λ cs. cs ++ payment_sent st ∷ []) (s2.1 ∙ s1.1)))
                  (after_answer-ok (s.send st) d s.now rs st _
                    (record x { calls = x.calls ++ payment_sent st ∷ [] }) h4),
            )
