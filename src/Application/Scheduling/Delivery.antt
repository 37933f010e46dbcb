-- ===== src/Application/Scheduling/Delivery.antt =====
-- An event is acted on once, however often it is delivered.
use mathlib.Core.Path.{subst}
use adquirente.Base.{
  eq_iff, ◌≡◌, refl, sym, ap, ◌∙◌, inl, inr, Bool, Bool-cases, true, false, String, str_eq, Option,
  none, some, List, [], ◌∷◌, ◌++◌, if◌then◌else◌,
}
use adquirente.Base.Assoc.{string_eq}
use adquirente.Shared.Error.{Error, Result, ok, err}
use adquirente.Transaction.{TransactionCaptured, TransactionCanceled}
use adquirente.Receivable.{Receivable}
use adquirente.Store.{Database, World, Action, pure, continue_with, unit_of_work}
use adquirente.Store.Laws.{
  SameRest, after_ok, finish, in_unit_of_work, unit_of_work-err, AllOrNothing, all_or_nothing,
}
use adquirente.Store.Failure.{FailsClean, unit_of_work-FailsClean}
use adquirente.Store.Books.{pair_eq, is_processed, mark, mark_if_new}
use adquirente.Store.Books.Effects.{mark_if_new-ok}
use adquirente.Application.Scheduling.{
  Scheduler, consumer_name, after_mark, once, agenda, registered, on_captured, take_back,
  on_canceled, decoded, handle,
}
use adquirente.Application.Scheduling.Effect.{agenda-ok, take_back-TakesBack}

pair_refl : (p : String × String) → pair_eq p p ≡ true
pair_refl (a, b) = rw ((eq_iff a a).1 refl, (eq_iff b b).1 refl) refl

is_processed_last :
    (p : String × String) (ps : List (String × String)) → is_processed p (ps ++ p ∷ []) ≡ true
is_processed_last p [] = rw (pair_refl p) refl
is_processed_last p (q ∷ qs) = elim (Bool-cases (pair_eq q p)) [
  | inl h ↦ rw h refl
  | inr h ↦ rw (h, is_processed_last p qs) refl
]

abbrev pub Marked : String × String → Database → Type 0
Marked p db = is_processed p db.processed_events ≡ true

-- Whoever marks an event finds it marked afterwards, and changes nothing if it was marked before.
mark-Marked : (p : String × String) (db : Database) → Marked p (mark p db).1
mark-Marked p db = elim (Bool-cases (is_processed p db.processed_events)) [
  | inl seen ↦ rw seen seen
  | inr fresh ↦ rw fresh (is_processed_last p db.processed_events)
]

mark_again : (p : String × String) (db : Database) → Marked p db → mark p db ≡ (false, db)
mark_again p db h = rw h refl

-- What must not touch the processed events: the rest of a handler.
abbrev KeepsMarks : {A : Type 0} → Action A → Type 0
KeepsMarks {A} rest =
    (w : World) (a : A) (w' : World)
    → rest w ≡ (ok a, w')
    → w'.database.processed_events ≡ w.database.processed_events

after_mark_keeps :
    {A : Type 0} (nothing : A) (rest : Action A) (b : Bool)
    → KeepsMarks rest
    → KeepsMarks (after_mark nothing rest b)
after_mark_keeps nothing rest true h w a w' eq = h w a w' eq
after_mark_keeps nothing rest false h w a w' eq = sym (ap (λ p. p.1.database.processed_events) eq)

once-Marked :
    {A : Type 0} (nothing : A) (rest : Action A) (id : String) (w : World) {a : A} {w' : World}
    → KeepsMarks rest
    → once nothing rest id w ≡ (ok a, w')
    → Marked (consumer_name, id) w'.database
unfolding once
once-Marked nothing rest id w {a} {w'} k h =
    after_ok (mark_if_new consumer_name id w) _ h λ b v ran last.
      let (marked, same) = mark_if_new-ok consumer_name id w ran in
      subst (λ ps. is_processed (consumer_name, id) ps ≡ true)
        (sym (after_mark_keeps nothing rest b k v a w' last))
        (subst (Marked (consumer_name, id)) (ap (λ p. p.1) marked)
          (mark-Marked (consumer_name, id) w.database))

-- Nothing was done: the value for a repeated event, and the same world but for faults.
abbrev pub IsIdle : {A : Type 0} → A → World → A → World → Type 0
IsIdle nothing w a w' = (a ≡ nothing) × (w'.database ≡ w.database) × SameRest w w'

after_mark-IsIdle :
    {A : Type 0} (nothing : A) (rest : Action A) (b : Bool) (w : World) {a : A} {w' : World}
    → b ≡ false
    → after_mark nothing rest b w ≡ (ok a, w')
    → IsIdle nothing w a w'
after_mark-IsIdle nothing rest true w e h = absurd cc
after_mark-IsIdle nothing rest false w e h =
    finish (IsIdle nothing w) nothing w h (refl, refl, (refl, refl))

once_again :
    {A : Type 0} (nothing : A) (rest : Action A) (id : String) (w : World) {a : A} {w' : World}
    → Marked (consumer_name, id) w.database
    → once nothing rest id w ≡ (ok a, w')
    → IsIdle nothing w a w'
unfolding once
once_again nothing rest id w {a} {w'} seen h =
    after_ok (mark_if_new consumer_name id w) _ h λ b v ran last.
      let (marked, (n, c)) = mark_if_new-ok consumer_name id w ran in
      let same = sym (mark_again (consumer_name, id) w.database seen) ∙ marked in
      let (value, tables, (n', c')) =
        after_mark-IsIdle nothing rest b v (sym (ap (λ p. p.0) same)) last in
      (value, tables ∙ sym (ap (λ p. p.1) same), (n' ∙ n, c' ∙ c))

abbrev recast : {A B : Type 0} → Error → Result A × World → Result B × World
recast e (err x, w) = (err x, w)
recast e (ok a, w) = (err e, w)

-- A step that can not fail adds no failure.
register-err :
    {Payload : Type 0} (s : Scheduler Payload) (r : Result (List Receivable) × World) {e : Error}
    {w' : World}
    → continue_with (registered s) r ≡ (err e, w')
    → r ≡ (err e, w')
register-err s (err x, w) h = ap (recast x) h
register-err s (ok [], w) h = absurd (cc (ap (λ p. p.0) h))
register-err s (ok (r ∷ rs), w) h = absurd (cc (ap (λ p. p.0) h))

registered_tables :
    {Payload : Type 0} (s : Scheduler Payload) (rs : List Receivable) (w : World) {u : Unit {0}}
    {w' : World}
    → registered s rs w ≡ (ok u, w')
    → w'.database ≡ w.database
registered_tables s [] w h = sym (ap (λ p. p.1.database) h)
registered_tables s (r ∷ rs) w h = sym (ap (λ p. p.1.database) h)

IsIdle-register :
    {Payload : Type 0} (s : Scheduler Payload) (rs : List Receivable) (v w : World) {u : Unit {0}}
    {w' : World}
    → IsIdle [] w rs v
    → registered s rs v ≡ (ok u, w')
    → IsIdle tt w u w'
IsIdle-register s [] v w (nil, tables, same) h = finish (IsIdle tt w) tt v h (refl, tables, same)
IsIdle-register s (r ∷ rs) v w (nil, tables, same) h = absurd (cc nil)

-- An event is handled at most once: the first success marks it, and from then on it does nothing.
abbrev pub Handles : Action (Unit {0}) → (Database → Type 0) → Type 0
Handles m IsDone =
    ((w : World) (u : Unit {0}) (w' : World) → m w ≡ (ok u, w') → IsDone w'.database)
    × ((w : World) (u : Unit {0}) (w' : World)
        → IsDone w.database
        → m w ≡ (ok u, w')
        → IsIdle tt w u w')
    × FailsClean m

module _ {Payload : Type 0} (s : Scheduler Payload) where
  agenda_keeps : (ev : TransactionCaptured) → KeepsMarks (agenda s ev)
  agenda_keeps ev w list w' h =
      let (tx, m, row, owned, shop, (evs, planned, said, all, fits, tables, same)) =
        agenda-ok s ev w h in
      ap (λ db. db.processed_events) tables

  take_back_keeps : (ev : TransactionCanceled) → KeepsMarks (take_back s ev)
  take_back_keeps ev w u w' h =
      let (changes, fits, tables) = take_back-TakesBack s ev w h in
      ap (λ db. db.processed_events) tables

  on_captured-Handles :
      (ev : TransactionCaptured) → Handles (on_captured s ev) (Marked (consumer_name, ev.base.id))
  unfolding on_captured
  on_captured-Handles ev = (
    (λ w u w' h. after_ok (unit_of_work (once [] (agenda s ev) ev.base.id) w) _ h λ rs v ran rest.
        subst (Marked (consumer_name, ev.base.id)) (sym (registered_tables s rs v rest)) (
          in_unit_of_work (λ x a y. Marked (consumer_name, ev.base.id) y.database) _ w ran
            λ x y inner. once-Marked [] (agenda s ev) ev.base.id x (agenda_keeps ev) inner)),
    (λ w u w' seen h.
        after_ok (unit_of_work (once [] (agenda s ev) ev.base.id) w) _ h λ rs v ran rest.
          IsIdle-register s rs v w
            (in_unit_of_work
              (λ x a y. Marked (consumer_name, ev.base.id) x.database → IsIdle [] x a y) _ w ran
              (λ x y inner before. once_again [] (agenda s ev) ev.base.id x before inner) seen)
            rest),
    λ w e w' h. unit_of_work-err _ w (register-err s _ h),
  )

  on_canceled-Handles :
      (ev : TransactionCanceled) → Handles (on_canceled s ev) (Marked (consumer_name, ev.base.id))
  unfolding on_canceled
  on_canceled-Handles ev = (
    (λ w u w' h.
        in_unit_of_work (λ x a y. Marked (consumer_name, ev.base.id) y.database) _ w h
          λ x y inner.
            once-Marked tt (take_back s ev) ev.base.id x (λ a b c ran. take_back_keeps ev a b c ran)
              inner),
    (λ w u w' seen h.
        in_unit_of_work (λ x a y. Marked (consumer_name, ev.base.id) x.database → IsIdle tt x a y) _
          w h (λ x y inner before. once_again tt (take_back s ev) ev.base.id x before inner) seen),
    unit_of_work-FailsClean _,
  )

-- The processed events of one database are processed in the other.
abbrev pub KeepsProcessed : Database → Database → Type 0
KeepsProcessed db db' = (p : String × String) → Marked p db → Marked p db'

-- A delivery after a successful one, on any tables where what it left as processed is still so, does
-- nothing; a failed one did nothing.
abbrev pub IsAtMostOnce : Action (Unit {0}) → Type 0
IsAtMostOnce m =
    ((w w' v v' : World) (u x : Unit {0})
      → m w ≡ (ok u, w')
      → KeepsProcessed w'.database v.database
      → m v ≡ (ok x, v')
      → IsIdle tt v x v')
    × FailsClean m

handled_once : (m : Action (Unit {0})) (p : String × String) → Handles m (Marked p) → IsAtMostOnce m
handled_once m p (marks, idles, clean) = (
  (λ w w' v v' u x first tables again. idles v x v' (tables p (marks w u w' first)) again),
  clean,
)

either_once :
    (b : Bool) (m n : Action (Unit {0}))
    → IsAtMostOnce m
    → IsAtMostOnce n
    → IsAtMostOnce (if b then m else n)
either_once true m n h k = h
either_once false m n h k = k

decoded_once :
    {Payload E : Type 0} (s : Scheduler Payload) (on : E → Action (Unit {0})) (o : Option E)
    → ((ev : E) → IsAtMostOnce (on ev))
    → IsAtMostOnce (decoded s on o)
decoded_once s on (some ev) h = h ev
decoded_once s on none h = (
  (λ w w' v v' u x first tables again. absurd (cc (ap (λ p. p.0) first))),
  λ w e w' failed. sym (ap (λ p. p.1.database) failed),
)

nothing_once : IsAtMostOnce (pure tt)
nothing_once = (
  (λ w w' v v' u x first tables again. finish (IsIdle tt v) tt v again (refl, refl, (refl, refl))),
  λ w e w' failed. absurd (cc (ap (λ p. p.0) failed)),
)

pub handle-IsAtMostOnce :
    {Payload : Type 0} (s : Scheduler Payload) (event_type : String) (payload : Payload)
    → IsAtMostOnce (handle s event_type payload)
unfolding handle
handle-IsAtMostOnce s event_type payload =
    either_once (str_eq event_type "transaction.captured") _ _
      (decoded_once s (on_captured s) (s.captured_of payload)
        λ ev. handled_once _ _ (on_captured-Handles s ev))
      (either_once (str_eq event_type "transaction.canceled") _ _
        (decoded_once s (on_canceled s) (s.canceled_of payload)
          λ ev. handled_once _ _ (on_canceled-Handles s ev))
        nothing_once)

-- After a delivery that succeeded, a further delivery of the same message, on any tables where what
-- was processed then is still so, changes no table whether it succeeds or fails, and if it succeeds, it draws no
-- number and calls no service.
pub handle-IsIdle :
    {Payload : Type 0} (s : Scheduler Payload) (event_type : String) (payload : Payload)
    (w w' v : World)
    → handle s event_type payload w ≡ (ok tt, w')
    → KeepsProcessed w'.database v.database
    → AllOrNothing (IsIdle tt) v (handle s event_type payload v)
handle-IsIdle s event_type payload w w' v first tables =
    let (again, clean) = handle-IsAtMostOnce s event_type payload in
    all_or_nothing (IsIdle tt) v _ (λ u v' h. again w w' v v' tt u first tables h)
      (λ e v' h. clean v e v' h)
