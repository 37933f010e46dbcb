-- ===== src/Application/Merchants/Effect.antt =====
-- What the use cases on merchants leave in the table.
use adquirente.Base.{
  ◌≡◌, refl, sym, ap, ◌∙◌, true, false, String, Option, none, some, List, [], ◌∷◌,
}
use adquirente.Base.Int.{ltb_ℤ}
use adquirente.Base.Assoc.{lookup, insert, string_eq}
use adquirente.Shared.Error.{Error, Result, ok, err, Outcome}
use adquirente.Shared.Time.{Time}
use adquirente.Merchant.{Merchant}
use adquirente.Store.{
  Database, World, applied, lift, pure, answered, place, statement, continue_with, ◌>>=◌,
}
use adquirente.Store.Laws.{
  SameRest, SameRest-trans, AllOrNothing, all_or_nothing, after_ok, applied_ok, lifted_ok, finish,
}
use adquirente.Store.Failure.{
  FailsClean, applied-IsReading, lift-IsReading, query-IsReading, then-FailsClean,
}
use adquirente.Store.Shops.{
  create_merchant, find_merchant, update_merchant, find_merchant-ok, read_merchant, set_merchant,
  update_merchant-ok, has_document, create_merchant-ok,
}
use adquirente.Application.Merchants.Enrollment.{Setting, OnboardCommand, enrolled}
use adquirente.Application.Merchants.{stored, onboard, updated, change}

place-FailsClean :
    {A : Type 0} (r : Result (A × Database)) (w : World) (e : Error) (w' : World)
    → place r w ≡ (err e, w')
    → w'.database ≡ w.database
place-FailsClean (ok (a, db)) w e w' h = absurd (cc (ap (λ p. p.0) h))
place-FailsClean (err x) w e w' h = sym (ap (λ p. p.1.database) h)

answered-FailsClean :
    {A : Type 0} (r : Result (A × Database)) (w : World) (faults : List (Option Error)) (e : Error)
    (w' : World)
    → answered r w faults ≡ (err e, w')
    → w'.database ≡ w.database
answered-FailsClean r w [] e w' h = place-FailsClean r w e w' h
answered-FailsClean r w (none ∷ faults) e w' h =
    place-FailsClean r (record w { faults = faults }) e w' h
answered-FailsClean r w (some x ∷ faults) e w' h = sym (ap (λ p. p.1.database) h)

-- A single statement that fails changes no table.
statement-FailsClean :
    {A : Type 0} (f : Database → Result (A × Database)) → FailsClean (statement f)
unfolding statement
statement-FailsClean f w e w' h = answered-FailsClean (f w.database) w w.faults e w' h

written_fails :
    (r : Result (Unit {0}) × World) (m : Merchant) (db : Database)
    → ((e : Error) (w' : World) → r ≡ (err e, w') → w'.database ≡ db)
    → (e : Error) (w' : World) → continue_with (λ _. pure m) r ≡ (err e, w')
    → w'.database ≡ db
written_fails (ok u, w) m db k e w' h = absurd (cc (ap (λ p. p.0) h))
written_fails (err x, w) m db k e w' h = sym (ap (λ p. p.1.database) h) ∙ k x w refl

-- One statement, and then its value.
written-FailsClean :
    (f : Database → Result (Unit {0} × Database)) (m : Merchant)
    → FailsClean (statement f >>= λ _. pure m)
written-FailsClean f m w e w' h =
    written_fails (statement f w) m w.database (statement-FailsClean f w) e w' h

-- The changed merchant replaced the stored one, whose version was older.
abbrev pub Reviewed :
    Time → String → (Merchant → Outcome Merchant) → World → Merchant → World → Type 0
Reviewed stamp id apply w new w' =
    (m : Merchant) × (old : Merchant) × (read_merchant (lookup id w.database.merchants) ≡ ok m)
    × (apply m ≡ (new, none))
    × (lookup new.id w.database.merchants ≡ some old)
    × (ltb_ℤ old.version new.version ≡ true)
    × (w'.database ≡ record w.database {
      merchants = insert new.id (set_merchant stamp new old) w.database.merchants;
    })
    × SameRest w w'

updated-FailsClean : (stamp : Time) (m : Merchant) → FailsClean (updated stamp m)
unfolding update_merchant
updated-FailsClean stamp m = written-FailsClean _ m

stored-FailsClean : (m : Merchant) → FailsClean (stored m)
unfolding create_merchant
stored-FailsClean m = written-FailsClean _ m

Reviewed-ok :
    (stamp : Time) (id : String) (apply : Merchant → Outcome Merchant) (w : World) (new : Merchant)
    (w' : World)
    → change stamp id apply w ≡ (ok new, w')
    → Reviewed stamp id apply w new w'
unfolding change
Reviewed-ok stamp id apply w new w' h = after_ok (find_merchant id w) _ h λ m v found h1.
    applied_ok (apply m) (updated stamp) v h1 λ made method h2.
      after_ok (update_merchant stamp made v) _ h2 λ u x ran last.
        let (row, t1, s1) = find_merchant-ok id w found in
        let (old, there, older, t2, s2) = update_merchant-ok stamp made v ran in
        finish (Reviewed stamp id apply w) made x last (
          m,
          old,
          row,
          method,
          sym (ap (λ db. lookup made.id db.merchants) t1) ∙ there,
          older,
          t2
              ∙ ap {A = Database}
                  (λ db. record db {
                    merchants = insert made.id (set_merchant stamp made old) db.merchants;
                  })
                  t1,
          SameRest-trans w v x s1 s2,
        )

change-FailsClean :
    (stamp : Time) (id : String) (apply : Merchant → Outcome Merchant)
    → FailsClean (change stamp id apply)
unfolding change find_merchant
change-FailsClean stamp id apply =
    then-FailsClean (find_merchant id) _
      (query-IsReading λ db. read_merchant (lookup id db.merchants))
      λ m.
        then-FailsClean (applied (apply m)) (updated stamp) (applied-IsReading (apply m))
          (updated-FailsClean stamp)

-- An approval, a block or a change of settings that succeeds replaced the stored merchant, whose
-- version was older, by what the method made of it, with its old identifier and time of creation and
-- with the time of the write as its time of change, and no other row; one that fails changed nothing.
pub change-Reviewed :
    (stamp : Time) (id : String) (apply : Merchant → Outcome Merchant) (w : World)
    → AllOrNothing (Reviewed stamp id apply) w (change stamp id apply w)
change-Reviewed stamp id apply w =
    all_or_nothing (Reviewed stamp id apply) w _ (Reviewed-ok stamp id apply w)
      (change-FailsClean stamp id apply w)

-- The merchant was checked, and added to the table under a new key and with a new document.
abbrev pub Onboarded : Setting → OnboardCommand → World → Merchant → World → Type 0
Onboarded s cmd w m w' =
    (enrolled s cmd ≡ ok m)
    × (lookup m.id w.database.merchants ≡ none)
    × (has_document m.document w.database.merchants ≡ false)
    × (w'.database ≡ record w.database { merchants = insert m.id m w.database.merchants })
    × SameRest w w'

Onboarded-ok :
    (s : Setting) (cmd : OnboardCommand) (w : World) (m : Merchant) (w' : World)
    → onboard s cmd w ≡ (ok m, w')
    → Onboarded s cmd w m w'
unfolding onboard
Onboarded-ok s cmd w m w' h = lifted_ok (enrolled s cmd) stored w h λ made checked h1.
    after_ok (create_merchant made w) _ h1 λ u x ran last.
      let (fresh, unused, tables, same) = create_merchant-ok made w ran in
      finish (Onboarded s cmd w) made x last (checked, fresh, unused, tables, same)

onboard-FailsClean : (s : Setting) (cmd : OnboardCommand) → FailsClean (onboard s cmd)
unfolding onboard
onboard-FailsClean s cmd =
    then-FailsClean (lift (enrolled s cmd)) stored (lift-IsReading (enrolled s cmd))
      stored-FailsClean

-- A registration that succeeds added exactly the merchant that passed the checks of its document,
-- account, fee plan, name and webhook, with a new key and a document that no other merchant has; one
-- that fails changed nothing.
pub onboard-Onboarded :
    (s : Setting) (cmd : OnboardCommand) (w : World)
    → AllOrNothing (Onboarded s cmd) w (onboard s cmd w)
onboard-Onboarded s cmd w =
    all_or_nothing (Onboarded s cmd) w _ (Onboarded-ok s cmd w) (onboard-FailsClean s cmd w)
