-- ===== src/Application/Authorization/Saga.antt =====
-- What an authorization leaves behind, whatever the issuer and the database do.
use mathlib.Core.List.{append_assoc}
use adquirente.Base.{◌≡◌, refl, sym, ap, ◌∙◌, String, none, some, [], ◌∷◌, ◌++◌}
use adquirente.Base.Assoc.{lookup, string_eq}
use adquirente.Shared.Error.{ok}
use adquirente.Merchant.{Merchant}
use adquirente.Transaction.{Transaction, pull_events}
use adquirente.Transaction.Requests.{AuthorizationResponse, CardData}
use adquirente.Store.{World, authorization_asked, call, lift}
use adquirente.Store.Laws.{
  after_ok, lifted_ok, in_unit_of_work, statement-ok, SameRest, AllOrNothing, all_or_nothing,
}
use adquirente.Store.Tables.{selected-ok}
use adquirente.Store.Failure.{
  IsReading, FailsClean, lift-IsReading, call-IsReading, query-IsReading, then-FailsClean,
  unit_of_work-FailsClean,
}
use adquirente.Store.Shops.{find_merchant, read_merchant}
use adquirente.Application.Authorization.{request_of, settled_answer, conclude, asked, execute}
use adquirente.Application.Authorization.Checks.{
  Setting, AuthorizeCommand, IssuerAnswer, responded, deadline_exceeded, failed, prepared,
  IsPrepared, prepared-IsPrepared,
}
use adquirente.Application.Authorization.Verdict.{
  decision, decided_status, recorded, Concludes, Concludes-ok, verdict, reversals,
  settled_answer-ok, status-decision_by,
}

-- The issuer was asked once; its answer, or the timeout with a reversal, decided the sale.
abbrev pub Asks : Setting → Merchant → CardData → Transaction → World → Transaction → World → Type 0
Asks s m card tx w t w' =
    (r : AuthorizationResponse) × (nsu : String) × (new : Transaction) × (verdict
        (s.issuer (request_of m card tx))
      ≡ some r)
    × (decision s r nsu tx ≡ (new, none))
    × (new.status ≡ decided_status r)
    × (new.amount ≡ tx.amount)
    × (lookup new.id w.database.transactions ≡ none)
    × (w'.database ≡ recorded new w.database)
    × (t ≡ (pull_events new).1)
    × (w'.calls
        ≡ w.calls
          ++ authorization_asked (request_of m card tx)
            ∷ reversals tx.id (s.issuer (request_of m card tx)))

asked-ok :
    (s : Setting) (m : Merchant) (card : CardData) (tx : Transaction) (w : World) {t : Transaction}
    {w' : World}
    → asked s m (card, tx) w ≡ (ok t, w')
    → Asks s m card tx w t w'
unfolding asked
asked-ok s m card tx w {t} {w'} h =
    let req = request_of m card tx in
    let w1 = record w { calls = w.calls ++ authorization_asked req ∷ [] } in
    after_ok (settled_answer tx.id (s.issuer req) w1) _ h λ r v ran rest.
      let (answer, tables, calls) = settled_answer-ok tx.id (s.issuer req) w1 ran in
      let (nsu, new, method, fresh, tables', value, calls') =
        in_unit_of_work (Concludes s r tx) (conclude s r tx) v rest
          (λ a b. Concludes-ok s r tx a) in
      let (status, amount) = status-decision_by r.approved s r nsu tx method in
      (
        r,
        nsu,
        new,
        answer,
        method,
        status,
        amount,
        sym (ap (λ db. lookup new.id db.transactions) tables) ∙ fresh,
        tables' ∙ ap (recorded new) tables,
        value,
        calls'
            ∙ calls
            ∙ append_assoc w.calls (authorization_asked req ∷ []) (reversals tx.id (s.issuer req)),
      )

find_merchant-IsReading : (id : String) → IsReading (find_merchant id)
unfolding find_merchant
find_merchant-IsReading id = query-IsReading (λ db. read_merchant (lookup id db.merchants))

settled_answer-IsReading :
    (id : String) (answer : IssuerAnswer) → IsReading (settled_answer id answer)
settled_answer-IsReading id (responded r) w = refl
settled_answer-IsReading id deadline_exceeded w = refl
settled_answer-IsReading id failed w = refl

asked-FailsClean :
    (s : Setting) (m : Merchant) (p : CardData × Transaction) → FailsClean (asked s m p)
unfolding asked
asked-FailsClean s m (card, tx) =
    let req = request_of m card tx in
    then-FailsClean (call (authorization_asked req)) _ (call-IsReading (authorization_asked req))
      λ u.
        then-FailsClean (settled_answer tx.id (s.issuer req)) _
          (settled_answer-IsReading tx.id (s.issuer req))
          λ r. unit_of_work-FailsClean (conclude s r tx)

found_tables :
    (id : String) (w : World) {m : Merchant} {w' : World}
    → find_merchant id w ≡ (ok m, w')
    → (w'.database ≡ w.database) × SameRest w w'
unfolding find_merchant
found_tables id w h =
    let (ran, rest) = statement-ok _ w h in
    ((selected-ok w.database (read_merchant (lookup id w.database.merchants)) ran).1, rest)

Asks-from :
    (s : Setting) (m : Merchant) (card : CardData) (tx : Transaction) (w v : World)
    (t : Transaction) (w' : World)
    → (v.database ≡ w.database) × SameRest w v
    → Asks s m card tx v t w'
    → Asks s m card tx w t w'
Asks-from s m card tx w v t w' (tables, (n, calls))
      (r, nsu, new, answer, method, status, amount, fresh, tables', value, calls') =
    (
      r,
      nsu,
      new,
      answer,
      method,
      status,
      amount,
      sym (ap (λ db. lookup new.id db.transactions) tables) ∙ fresh,
      tables' ∙ ap (recorded new) tables,
      value,
      calls'
          ∙ ap
              (λ cs.
                cs
                ++ authorization_asked (request_of m card tx)
                  ∷ reversals tx.id (s.issuer (request_of m card tx)))
              calls,
    )

-- What a successful authorization has done.
abbrev pub Authorizes : Setting → AuthorizeCommand → World → Transaction → World → Type 0
Authorizes s cmd w t w' =
    (m : Merchant) × (card : CardData) × (tx : Transaction) × IsPrepared s cmd m card tx
    × Asks s m card tx w t w'

-- An authorization that succeeds asked the issuer exactly once, for a sale that passed every check;
-- the approval, the denial, or the denial with code 91 after a timeout, is what is stored, under a
-- new key and with one pull of its events, and a timeout is followed by a reversal of the same sale.
-- One that fails, at any point, leaves every table as it was.
pub execute-Authorizes :
    (s : Setting) (cmd : AuthorizeCommand) (w : World)
    → AllOrNothing (Authorizes s cmd) w (execute s cmd w)
unfolding execute
execute-Authorizes s cmd w =
    all_or_nothing (Authorizes s cmd) w _
      (λ t w' h. after_ok (find_merchant cmd.merchant_id w) _ h λ m v ran rest.
        lifted_ok (prepared s cmd m) (asked s m) v rest λ p ready last.
          let same = found_tables cmd.merchant_id w ran in
          (
            m,
            p.0,
            p.1,
            prepared-IsPrepared s cmd m ready,
            Asks-from s m p.0 p.1 w v t w' same (asked-ok s m p.0 p.1 v last),
          ))
      (then-FailsClean (find_merchant cmd.merchant_id) _ (find_merchant-IsReading cmd.merchant_id)
        (λ m.
          then-FailsClean (lift (prepared s cmd m)) (asked s m) (lift-IsReading (prepared s cmd m))
            (asked-FailsClean s m))
        w)
