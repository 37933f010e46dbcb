-- ===== src/Application/Authorization/Verdict.antt =====
-- What becomes of the issuer's answer: the decision on the sale, and its recording.
use mathlib.Core.Path.{subst}
use mathlib.Core.List.{append-nil}
use adquirente.Base.{
  ◌≡◌, refl, sym, ap, ◌∙◌, inl, inr, Bool, true, false, String, Option, none, some, List, [], ◌∷◌,
  ◌++◌, if◌then◌else◌,
}
use adquirente.Base.Assoc.{lookup, insert, string_eq}
use adquirente.Shared.Error.{ok, Outcome}
use adquirente.Transaction.{Transaction, Status, authorized, denied, authorize, deny, pull_events}
use adquirente.Transaction.Graph.{authorize_call, deny_call, perform-Moves, Moves}
use adquirente.Transaction.Requests.{AuthorizationResponse}
use adquirente.Store.{Database, World, Call, reversal_asked, applied}
use adquirente.Store.Laws.{after_ok, applied_last, finish}
use adquirente.Store.Sales.{create, restored, next_nsu, with_transactions}
use adquirente.Store.Sales.Effects.{create-ok, next_nsu-ok}
use adquirente.Store.Books.{append_events}
use adquirente.Store.Books.Effects.{append_events-ok, with_events}
use adquirente.Application.Lifecycle.{pulled}
use adquirente.Application.Authorization.{no_answer, settled_answer, decided, decided_by, conclude}
use adquirente.Application.Authorization.Checks.{
  Setting, IssuerAnswer, responded, deadline_exceeded, failed,
}

-- The method that the response calls for.
abbrev pub decision_by :
    Bool → Setting → AuthorizationResponse → String → Transaction → Outcome Transaction
decision_by true s r nsu tx = authorize s.event_id r.authorization_code nsu s.later tx
decision_by false s r nsu tx = deny s.event_id r.response_code s.later tx

abbrev pub decision : Setting → AuthorizationResponse → String → Transaction → Outcome Transaction
decision s r nsu tx = decision_by r.approved s r nsu tx

abbrev pub decided_status : AuthorizationResponse → Status
decided_status r = if r.approved then authorized else denied

-- The tables after a new transaction with its event.
abbrev pub recorded : Transaction → Database → Database
recorded t db =
    with_events (pulled t) (with_transactions (insert t.id (restored t) db.transactions) db)

-- The decision was stored, once, with its event; no service was called for it.
abbrev pub Concludes :
    Setting → AuthorizationResponse → Transaction → World → Transaction → World → Type 0
Concludes s r tx w t w' =
    (nsu : String) × (new : Transaction) × (decision s r nsu tx ≡ (new, none))
    × (lookup new.id w.database.transactions ≡ none)
    × (w'.database ≡ recorded new w.database)
    × (t ≡ (pull_events new).1)
    × (w'.calls ≡ w.calls)

-- The decision was made on the transaction; no table changed and no service was called.
abbrev Decides : Outcome Transaction → World → Transaction → World → Type 0
Decides o w t w' = (o ≡ (t, none)) × (w'.database ≡ w.database) × (w'.calls ≡ w.calls)

applied-Decides :
    (o : Outcome Transaction) (w : World) {t : Transaction} {w' : World}
    → applied o w ≡ (ok t, w')
    → Decides o w t w'
applied-Decides o w h = applied_last (Decides o w) o w h λ t method. (method, refl, refl)

decided_by-ok :
    (b : Bool) (s : Setting) (r : AuthorizationResponse) (tx : Transaction) (w : World)
    {t : Transaction} {w' : World}
    → decided_by b s r tx w ≡ (ok t, w')
    → (nsu : String) × Decides (decision_by b s r nsu tx) w t w'
decided_by-ok true s r tx w h = after_ok (next_nsu s.nsu_text w) _ h λ nsu v ran rest.
    let (tables, calls) = next_nsu-ok s.nsu_text w ran in
    let (method, tables', calls') =
      applied-Decides (authorize s.event_id r.authorization_code nsu s.later tx) v rest in
    (nsu, (method, tables' ∙ tables, calls' ∙ calls))
decided_by-ok false s r tx w h =
    ("", applied-Decides (deny s.event_id r.response_code s.later tx) w h)

pub Concludes-ok :
    (s : Setting) (r : AuthorizationResponse) (tx : Transaction) (w : World) {t : Transaction}
    {w' : World}
    → conclude s r tx w ≡ (ok t, w')
    → Concludes s r tx w t w'
unfolding conclude
Concludes-ok s r tx w h = after_ok (decided s r tx w) _ h λ new v ran rest.
    after_ok (create new v) _ rest λ u x inserted rest'.
      after_ok (append_events (pulled new) x) _ rest' λ u' y appended last.
        let (nsu, (method, tables, calls)) = decided_by-ok r.approved s r tx w ran in
        let (fresh, tables', (n, calls')) = create-ok new v inserted in
        let (tables'', (n', calls'')) = append_events-ok (pulled new) x appended in
        finish (Concludes s r tx w) (pull_events new).1 y last (
          nsu,
          new,
          method,
          sym (ap (λ db. lookup new.id db.transactions) tables) ∙ fresh,
          tables''
              ∙ ap (with_events (pulled new)) (
                  tables'
                  ∙ ap (λ db. with_transactions (insert new.id (restored new) db.transactions) db)
                      tables),
          refl,
          calls'' ∙ calls' ∙ calls,
        )

-- What becomes of an answer, and what is asked of the issuer after it.
abbrev pub verdict : IssuerAnswer → Option AuthorizationResponse
verdict (responded r) = some r
verdict deadline_exceeded = some no_answer
verdict failed = none

abbrev pub reversals : String → IssuerAnswer → List Call
reversals id (responded r) = []
reversals id deadline_exceeded = reversal_asked id ∷ []
reversals id failed = []

pub settled_answer-ok :
    (id : String) (answer : IssuerAnswer) (w : World) {r : AuthorizationResponse} {w' : World}
    → settled_answer id answer w ≡ (ok r, w')
    → (verdict answer ≡ some r)
      × (w'.database ≡ w.database)
      × (w'.calls ≡ w.calls ++ reversals id answer)
settled_answer-ok id (responded r) w h =
    finish (λ x v. (some r ≡ some x) × (v.database ≡ w.database) × (v.calls ≡ w.calls ++ [])) r w h
      (refl, refl, sym (append-nil w.calls))
settled_answer-ok id deadline_exceeded w h =
    finish
      (λ x v.
        (some no_answer ≡ some x)
        × (v.database ≡ w.database)
        × (v.calls ≡ w.calls ++ reversal_asked id ∷ []))
      no_answer (record w { calls = w.calls ++ reversal_asked id ∷ [] }) h (refl, refl, refl)
settled_answer-ok id failed w h = absurd (cc (ap (λ p. p.0) h))

moved_status :
    (to : Status) (tx new : Transaction)
    → Moves to tx (new, none)
    → (new.status ≡ to) × (new.amount ≡ tx.amount)
moved_status to tx new
      (inl (edge, e, status, version, (id, merchant, amount, product, installments, card))) =
    (status, amount)
moved_status to tx new (inr (edge, e, same)) = absurd (cc e)

pub status-decision_by :
    (b : Bool) (s : Setting) (r : AuthorizationResponse) (nsu : String) (tx : Transaction)
    {new : Transaction}
    → decision_by b s r nsu tx ≡ (new, none)
    → (new.status ≡ (if b then authorized else denied)) × (new.amount ≡ tx.amount)
status-decision_by true s r nsu tx {new} h = moved_status authorized tx new (
    subst (Moves authorized tx) h
      (perform-Moves (authorize_call s.event_id r.authorization_code nsu s.later) tx))
status-decision_by false s r nsu tx {new} h =
    moved_status denied tx new
      (subst (Moves denied tx) h (perform-Moves (deny_call s.event_id r.response_code s.later) tx))
