-- ===== src/Messaging/Consumer/Once.antt =====
-- The consumer of the schedules: a message acts once, however often it is attempted or delivered.
use mathlib.Core.Path.{subst}
use adquirente.Base.{
  Bool-cases, true, String, ◌++◌, [], ◌∷◌, ℕ, ◌≡◌, refl, sym, ◌∙◌, ◌⊎◌, inl, inr, List,
}
use adquirente.Shared.Error.{Error, ok, err}
use adquirente.Store.{Database, World, Action}
use adquirente.Messaging.{Message}
use adquirente.Messaging.Consumer.{Consumer, event_type_of, process}
use adquirente.Messaging.Consumer.Attempts.{Tries, no_failure, one_failure}
use adquirente.Messaging.Consumer.Letters.{run, process-Ends}
use adquirente.Application.Scheduling.{Scheduler, handle}
use adquirente.Application.Scheduling.Delivery.{KeepsProcessed, IsAtMostOnce, handle-IsAtMostOnce}
use adquirente.Application.History.{Grows}
use adquirente.Application.History.Reach.{Reaches, Reaches-Grows}
use adquirente.Store.Books.{pair_eq, is_processed}

is_processed-append :
    (p : String × String) (ps qs : List (String × String))
    → is_processed p ps ≡ true
    → is_processed p (ps ++ qs) ≡ true
is_processed-append p [] qs h = absurd cc
is_processed-append p (q ∷ ps) qs h = elim (Bool-cases (pair_eq q p)) [
  | inl same ↦ rw same refl
  | inr other ↦ rw other (is_processed-append p ps qs (rw other at h))
]

-- Where the processed events only grow, none is forgotten.
Grows-KeepsProcessed : (db db' : Database) → Grows db db' → KeepsProcessed db db'
Grows-KeepsProcessed db db' (es, evs, ps, fits, ledger, outbox, marks) p seen =
    subst (λ xs. is_processed p xs ≡ true) (sym marks)
      (is_processed-append p db.processed_events ps seen)

Tries-same :
    {m : Action (Unit {0})} {n : ℕ} {w v : World}
    → IsAtMostOnce m
    → Tries m n w v
    → v.database ≡ w.database
Tries-same once (no_failure w) = refl
Tries-same {w = w} once (one_failure {u = u} e ran soft tries) =
    Tries-same once tries ∙ once.1 w e u ran

module _ {Payload : Type 0} (c : Consumer Payload) (msg : Message Payload) where
  -- The last attempt failed, and the tables are as they were.
  abbrev pub Leaves : Action (Unit {0}) → World → World → Type 0
  Leaves m w w' =
      (w'.database ≡ w.database)
      × ((v : World) × (e : Error) × (v.database ≡ w.database) × (m v ≡ (err e, w')))

  -- Either the last attempt failed, or the handler succeeded once.
  acts_once :
      IsAtMostOnce (run c msg)
      → (w : World) (letters : List (Message Payload))
      → Leaves (run c msg) w (process c msg (w, letters)).0
        ⊎ ((v : World) × (v.database ≡ w.database)
            × (run c msg v ≡ (ok tt, (process c msg (w, letters)).0)))
  acts_once once w letters =
      let (n, few, v, tries, ends) = process-Ends c msg w letters in
      let same = Tries-same once tries in
      elim ends [
        | inl (done, rest) ↦ inr (v, same, done)
        | inr (e, failed, rest) ↦
            inl (once.1 v e (process c msg (w, letters)).0 failed ∙ same, (v, e, same, failed))
      ]

  -- After a success, a further one is idle, and a failure leaves the tables.
  again :
      IsAtMostOnce (run c msg)
      → (w : World) (letters : List (Message Payload)) (v : World)
      → run c msg v ≡ (ok tt, (process c msg (w, letters)).0)
      → (x : World) (more : List (Message Payload))
      → KeepsProcessed (process c msg (w, letters)).0.database x.database
      → (process c msg (x, more)).0.database ≡ x.database
  again once w letters v done x more tables = elim (acts_once once x more) [
    | inl (same, failure) ↦ same
    | inr (y, same, done') ↦
        let (nothing, idle, rest) =
          once.0 v (process c msg (w, letters)).0 y (process c msg (x, more)).0 tt tt done
            (subst (KeepsProcessed (process c msg (w, letters)).0.database) (sym same) tables)
            done' in
        idle ∙ same
  ]

  -- If the handler is the one of the schedules, either the last attempt on a message fails and
  -- the tables are as they were, or its handler succeeded once, on those tables; and then processing the message again, on the
  -- tables that any run of the use cases makes of these, changes no table.
  pub process-ActsOnce :
      (s : Scheduler Payload)
      → c.handler ≡ handle s
      → (w : World) (letters : List (Message Payload))
      → Leaves (handle s (event_type_of msg) msg.value) w (process c msg (w, letters)).0
        ⊎ ((v : World) × (v.database ≡ w.database)
            × (handle s (event_type_of msg) msg.value v ≡ (ok tt, (process c msg (w, letters)).0))
            × ((x y : World) (more : List (Message Payload))
                → Reaches Payload (process c msg (w, letters)).0 y
                → x.database ≡ y.database
                → (process c msg (x, more)).0.database ≡ x.database))
  process-ActsOnce s is_scheduler w letters =
      let once =
        subst (λ h. IsAtMostOnce (h (event_type_of msg) msg.value)) (sym is_scheduler)
          (handle-IsAtMostOnce s (event_type_of msg) msg.value) in
      elim (acts_once once w letters) [
        | inl failure ↦ inl (
            subst (λ h. Leaves (h (event_type_of msg) msg.value) w (process c msg (w, letters)).0)
              is_scheduler failure)
        | inr (v, same, done) ↦ inr (
          v,
          same,
          subst (λ h. h (event_type_of msg) msg.value v ≡ (ok tt, (process c msg (w, letters)).0))
              is_scheduler done,
          λ x y more later tables. again once w letters v done x more (
              subst (KeepsProcessed (process c msg (w, letters)).0.database) (sym tables) (
                Grows-KeepsProcessed (process c msg (w, letters)).0.database y.database
                  (Reaches-Grows later))),
        )
      ]
