-- ===== src/Http/Isolation.antt =====
-- What an answer of the API is about: the sales of the merchant that asks.
use mathlib.Core.Path.{subst}
use adquirente.Base.{
  ℕ, ◌≤◌, ◌≡◌, refl, sym, ap, ◌∙◌, ◌⊎◌, inl, inr, Bool, Bool-cases, true, false, String, str_eq,
  eq_iff, none, some, List, [], ◌∷◌, All, arith, if◌then◌else◌,
}
use adquirente.Base.Assoc.{lookup, string_eq}
use adquirente.Shared.Error.{Error, Result, ok, err}
use adquirente.Shared.Time.{Time}
use adquirente.Transaction.{Transaction}
use adquirente.Transaction.Graph.{
  Call, capture_call, cancel_call, perform, target, Moves, perform-Moves,
}
use adquirente.Store.{World, Action}
use adquirente.Store.Laws.{AllOrNothing, all_or_nothing}
use adquirente.Store.Failure.{IsReading, query-IsReading, reading-FailsClean}
use adquirente.Store.Rows.{find_in}
use adquirente.Store.Sales.Effects.{find-ok}
use adquirente.Application.Lifecycle.{change, capture_sale, cancel_sale, get_sale}
use adquirente.Application.Lifecycle.Effect.{Changed, change-IsAtomic}
use adquirente.Shared.Sentinels.{is_error}
use adquirente.Http.Answers.{Printing, to_transaction_response}
use adquirente.Http.Replies.{
  Reply, transaction_body, problem, respond_by, respond_error, error_map, answer,
}
use adquirente.Http.Guards.{Principal, require_merchant}
use adquirente.Http.Sales.{reply_with, post_capture, post_cancel, get_transaction, shown_sale}

-- Every entry of `errorMap` is a failure.
respond_by-IsFailure :
    (text : Error → String) (e : Error) (entries : List (Error × ℕ × String))
    → All (λ x. 400 ≤ x.1) entries
    → 400 ≤ (respond_by text e entries).status
unfolding respond_by
respond_by-IsFailure text e [] all = omega arith
respond_by-IsFailure text e ((target, status, code) ∷ entries) (high, all) =
    elim (Bool-cases (is_error e target)) [
      | inl found ↦ rw found high
      | inr other ↦ rw other (respond_by-IsFailure text e entries all)
    ]

pub respond_error-IsFailure :
    (text : Error → String) (e : Error) → 400 ≤ (respond_error text e).status
respond_error-IsFailure text e = respond_by-IsFailure text e error_map (ground arith)

-- The token names no merchant, or the use case ended with the error that the answer tells.
abbrev pub IsRefused :
    (Error → String) → (String → Action Transaction) → Principal → World → Reply → Type 0
IsRefused text fn p w reply =
    ((str_eq p.merchant_id "" ≡ true) × (reply.status ≡ 403))
    ⊎ ((str_eq p.merchant_id "" ≡ false)
        × ((e : Error) × ((fn p.merchant_id w).0 ≡ err e) × (reply ≡ respond_error text e)))

-- The answer shows a sale of the merchant of the token, and `Did` says what became of the tables; or it
-- is a failure with its reason, and the tables are as they were.
abbrev pub IsOwn :
    Printing
    → (Error → String)
    → (String → Action Transaction)
    → (String → World → Transaction → World → Type 0)
    → Principal
    → World
    → Reply × World
    → Type 0
IsOwn pr text fn Did p w (reply, w') =
    ((reply.status ≡ 200)
      × (str_eq p.merchant_id "" ≡ false)
      × ((t : Transaction) × (reply.body ≡ transaction_body (to_transaction_response pr t))
          × (t.merchant_id ≡ p.merchant_id)
          × Did p.merchant_id w t w'))
    ⊎ ((400 ≤ reply.status) × (w'.database ≡ w.database) × IsRefused text fn p w reply)

-- A stored sale of the merchant was read.
abbrev pub Sees : String → String → World → Transaction → World → Type 0
Sees id merchant_id w t w' =
    (lookup id w.database.transactions ≡ some t)
    × (str_eq t.merchant_id merchant_id ≡ true)
    × (w'.database ≡ w.database)

-- A stored sale of the merchant was changed by a method.
abbrev pub Changes : Call → String → String → World → Transaction → World → Type 0
Changes c id merchant_id w t w' = Changed merchant_id id (perform c) w t w'

-- What the use case did, for a sale of the merchant.
abbrev Shows :
    (String → World → Transaction → World → Type 0) → String → World → Transaction → World → Type 0
Shows Did merchant_id w t w' = (t.merchant_id ≡ merchant_id) × Did merchant_id w t w'

module _ (pr : Printing) (text : Error → String)
    (Did : String → World → Transaction → World → Type 0) where
  answer-IsOwn :
      (fn : String → Action Transaction) (p : Principal) (w : World)
      (r : Result Transaction × World)
      → fn p.merchant_id w ≡ r
      → str_eq p.merchant_id "" ≡ false
      → AllOrNothing (Shows Did p.merchant_id) w r
      → IsOwn pr text fn Did p w (answer text (shown_sale pr text) r)
  answer-IsOwn fn p w (ok t, w') ran named (owned, did) = inl (refl, named, (t, refl, owned, did))
  answer-IsOwn fn p w (err e, w') ran named same =
      inr (respond_error-IsFailure text e, same, inr (named, (e, ap (λ r. r.0) ran, refl)))

  reply_with-IsOwn :
      (fn : String → String → Action Transaction) (id : String) (p : Principal) (w : World)
      → AllOrNothing (Shows Did p.merchant_id) w (fn p.merchant_id id w)
      → IsOwn pr text (λ m. fn m id) Did p w (reply_with pr text fn id p w)
  unfolding reply_with require_merchant
  reply_with-IsOwn fn id p w shows = elim (Bool-cases (str_eq p.merchant_id "")) [
    | inl nobody ↦
        subst (λ b. IsOwn pr text (λ m. fn m id) Did p w (turned_away b)) (sym nobody)
          (inr (omega arith, refl, inl (nobody, refl)))
    | inr named ↦
        subst (λ b. IsOwn pr text (λ m. fn m id) Did p w (turned_away b)) (sym named)
          (answer-IsOwn (λ m. fn m id) p w (fn p.merchant_id id w) refl named shows)
  ]
    where
      turned_away : Bool → Reply × World
      turned_away b =
          if b
          then (problem 403 "FORBIDDEN" "esta operação exige credencial de estabelecimento", w)
          else answer text (shown_sale pr text) (fn p.merchant_id id w)

same_merchant :
    (c : Call) (t new : Transaction) → perform c t ≡ (new, none) → new.merchant_id ≡ t.merchant_id
same_merchant c t new method = elim (subst (Moves (target c) t) method (perform-Moves c t)) [
  | inl (edge, fine, status, version, (id, merchant, amount, product, installments, card)) ↦
      merchant
  | inr (no_edge, failed, same) ↦ absurd cc
]

perform-Shows :
    (c : Call) (merchant_id id : String) (w : World)
    → AllOrNothing (Shows (Changes c id) merchant_id) w (change merchant_id id (perform c) w)
perform-Shows c merchant_id id w =
    go (change merchant_id id (perform c) w) (change-IsAtomic merchant_id id (perform c) w)
  where
    go :
        (r : Result Transaction × World)
        → AllOrNothing (Changed merchant_id id (perform c)) w r
        → AllOrNothing (Shows (Changes c id) merchant_id) w r
    go (err e, w') same = same
    go (ok t, w') (tx, new, old, row, owned, method, found, tables, value, same) =
        let mine = (eq_iff tx.merchant_id merchant_id).0 owned in
        (
          ap (λ x. x.merchant_id) value ∙ same_merchant c tx new method ∙ mine,
          (tx, new, old, row, owned, method, found, tables, value, same),
        )

find-IsReading : (merchant_id id : String) → IsReading (get_sale merchant_id id)
unfolding find_in
find-IsReading merchant_id id = query-IsReading _

get-Shows :
    (merchant_id id : String) (w : World)
    → AllOrNothing (Shows (Sees id) merchant_id) w (get_sale merchant_id id w)
get-Shows merchant_id id w =
    all_or_nothing (Shows (Sees id) merchant_id) w (get_sale merchant_id id w)
      (λ t w' h.
        let (row, owned, tables, same) = find-ok merchant_id id w h in
        ((eq_iff t.merchant_id merchant_id).0 owned, (row, owned, tables)))
      (reading-FailsClean (get_sale merchant_id id) (find-IsReading merchant_id id) w)

-- A request to see a sale is answered 200 only when the token names a merchant and the tables hold a
-- sale of that merchant under the identifier; the answer shows that sale, and the tables are as they
-- were. A request to capture or cancel one is answered 200 only when, besides, the method succeeded on
-- that sale; the tables then differ by its new row and the events that it announced, and the answer
-- shows the new sale. Any other request leaves the tables as they were, and is answered 403 if the token
-- names no merchant, and by the status of the error of the use case, at least 400, if it does.
pub sales-IsOwn :
    (pr : Printing) (text : Error → String) (event_id : String) (now : Time) (id : String)
    (p : Principal) (w : World)
    → IsOwn pr text (λ m. get_sale m id) (Sees id) p w (get_transaction pr text id p w)
      × IsOwn pr text
          (λ m. capture_sale event_id now m id)
          (Changes (capture_call event_id now) id)
          p
          w
          (post_capture pr text event_id now id p w)
      × IsOwn pr text
          (λ m. cancel_sale event_id now m id)
          (Changes (cancel_call event_id now) id)
          p
          w
          (post_cancel pr text event_id now id p w)
sales-IsOwn pr text event_id now id p w = (
  reply_with-IsOwn pr text (Sees id) get_sale id p w (get-Shows p.merchant_id id w),
  reply_with-IsOwn pr text (Changes (capture_call event_id now) id) (capture_sale event_id now) id p
      w (perform-Shows (capture_call event_id now) p.merchant_id id w),
  reply_with-IsOwn pr text (Changes (cancel_call event_id now) id) (cancel_sale event_id now) id p w
      (perform-Shows (cancel_call event_id now) p.merchant_id id w),
)
