-- ===== src/Store/Laws.antt =====
-- What a chain of statements and a unit of work leave behind.
use mathlib.Core.Path.{subst}
use adquirente.Base.{◌≡◌, refl, sym, ap, ◌∙◌, Option, none, some, List, [], ◌∷◌}
use adquirente.Shared.Error.{Error, Result, ok, err, Outcome}
use adquirente.Store.{
  Database, World, Action, lift, applied, continue_with, place, answered, statement, begin, commit,
  roll_back, unit_of_work,
}

abbrev value_or : {A : Type 0} → A → Result A → A
value_or a (ok b) = b
value_or a (err e) = a

-- Nothing but the tables may differ between two worlds.
abbrev pub SameRest : World → World → Type 0
SameRest w w' = (w'.nsu ≡ w.nsu) × (w'.calls ≡ w.calls)

pub SameRest-trans : (w v u : World) → SameRest w v → SameRest v u → SameRest w u
SameRest-trans w v u (n, c) (n', c') = (n' ∙ n, c' ∙ c)

-- A step that only returns a value.
pub pure-ok :
    {A : Type 0} (a : A) (w : World) {b : A} {w' : World}
    → ◌≡◌ {A = Result A × World} (ok a, w) (ok b, w')
    → (a ≡ b) × (w ≡ w')
pure-ok a w h = (ap (λ p. value_or a p.0) h, ap (λ p. p.1) h)

-- What holds of a value and a world holds of them when they are returned.
pub finish :
    {A : Type 0} (P : A → World → Type 0) (a : A) (w : World) {b : A} {w' : World}
    → ◌≡◌ {A = Result A × World} (ok a, w) (ok b, w')
    → P a w
    → P b w'
finish P a w {b} {w'} h p =
    let (value, world) = pure-ok a w h in subst (λ v. P b v) world (subst (λ c. P c w) value p)

-- A method of the domain is a link of a chain that leaves the world alone.
pub applied_ok :
    {S B P : Type 0} (o : Outcome S) (next : S → Action B) (w : World) {b : B} {w' : World}
    → continue_with next (applied o w) ≡ (ok b, w')
    → ((s : S) → o ≡ (s, none) → next s w ≡ (ok b, w') → P)
    → P
applied_ok (s, none) next w h k = k s refl h
applied_ok (s, some e) next w h k = absurd (cc (ap (λ p. p.0) h))

-- A method of the domain as the last step.
pub applied_last :
    {S : Type 0} (P : S → World → Type 0) (o : Outcome S) (w : World) {s : S} {w' : World}
    → applied o w ≡ (ok s, w')
    → ((s : S) → o ≡ (s, none) → P s w)
    → P s w'
applied_last P (s, none) w h k = finish P s w h (k s refl)
applied_last P (s, some e) w h k = absurd (cc (ap (λ p. p.0) h))

pub lifted_ok :
    {A B P : Type 0} (r : Result A) (next : A → Action B) (w : World) {b : B} {w' : World}
    → continue_with next (lift r w) ≡ (ok b, w')
    → ((a : A) → r ≡ ok a → next a w ≡ (ok b, w') → P)
    → P
lifted_ok (ok a) next w h k = k a refl h
lifted_ok (err e) next w h k = absurd (cc (ap (λ p. p.0) h))

-- To prove P from a chain that succeeds: its first link succeeds, and the rest from there.
pub after_ok :
    {A B P : Type 0} (r : Result A × World) (next : A → Action B) {b : B} {w : World}
    → continue_with next r ≡ (ok b, w)
    → ((a : A) (v : World) → r ≡ (ok a, v) → next a v ≡ (ok b, w) → P)
    → P
after_ok (ok a, v) next h k = k a v refl h
after_ok (err e, v) next h k = absurd (cc (ap (λ p. p.0) h))

-- What a statement that ran did to the world: the tables may have changed, and nothing else did.
abbrev pub Ran : {A : Type 0} → (Database → Result (A × Database)) → World → A → World → Type 0
Ran f w a w' = (f w.database ≡ ok (a, w'.database)) × SameRest w w'

place-ok :
    {A : Type 0} (r : Result (A × Database)) (w : World) {a : A} {w' : World}
    → place r w ≡ (ok a, w')
    → (r ≡ ok (a, w'.database)) × SameRest w w'
place-ok (ok (b, db)) w {a} {w'} h =
    let value : ok b ≡ ok a = ap (λ p. p.0) h in
    let tables : db ≡ w'.database = ap (λ p. p.1.database) h in
    (cc, (sym (ap (λ p. p.1.nsu) h), sym (ap (λ p. p.1.calls) h)))
place-ok (err x) w h = absurd (cc (ap (λ p. p.0) h))

answered-ok :
    {A : Type 0} (r : Result (A × Database)) (w : World) (faults : List (Option Error)) {a : A}
    {w' : World}
    → answered r w faults ≡ (ok a, w')
    → (r ≡ ok (a, w'.database)) × SameRest w w'
answered-ok r w [] h = place-ok r w h
answered-ok r w (none ∷ faults) h = place-ok r (record w { faults = faults }) h
answered-ok r w (some e ∷ faults) h = absurd (cc (ap (λ p. p.0) h))

abbrev tables_of : {A : Type 0} → Database → Result (A × Database) → Database
tables_of db (ok (a, db')) = db'
tables_of db (err e) = db

pub statement-ok :
    {A : Type 0} (f : Database → Result (A × Database)) (w : World) {a : A} {w' : World}
    → statement f w ≡ (ok a, w')
    → Ran f w a w'
unfolding statement
statement-ok f w h = answered-ok (f w.database) w w.faults h

pub transaction_control :
    (w v : World) (u : Unit {0})
    → begin w ≡ (ok u, v)
    → (v.database ≡ w.database) × (v.nsu ≡ w.nsu) × (v.calls ≡ w.calls)
transaction_control w v u h =
    let (db, (nsu, calls)) = statement-ok _ w h in (sym (ap (tables_of w.database) db), nsu, calls)

-- What a unit of work that succeeds did: its function ran on the same tables, and what that left
-- is what the unit leaves.
abbrev pub Done : {A : Type 0} → Action A → World → A → World → Type 0
Done fn w a w' =
    (v : World) × (u : World) × (fn v ≡ (ok a, u))
    × (v.database ≡ w.database)
    × (v.nsu ≡ w.nsu)
    × (v.calls ≡ w.calls)
    × (w'.database ≡ u.database)
    × (w'.nsu ≡ u.nsu)
    × (w'.calls ≡ u.calls)

roll_back-ok :
    {A : Type 0} (db : Database) (r : Result A × World) {a : A} {w : World}
    → roll_back db r ≡ (ok a, w)
    → r ≡ (ok a, w)
roll_back-ok db (ok b, v) h = h
roll_back-ok db (err e, v) h = absurd (cc (ap (λ p. p.0) h))

pub unit_of_work-ok :
    {A : Type 0} (fn : Action A) (w : World) {a : A} {w' : World}
    → unit_of_work fn w ≡ (ok a, w')
    → Done fn w a w'
unfolding unit_of_work
unit_of_work-ok fn w h = after_ok (begin w) _ (roll_back-ok w.database _ h) λ began v started rest.
    after_ok (fn v) _ rest λ b u ran rest'. after_ok (commit u) _ rest' λ done x committed last.
      let (d, n, c) = transaction_control w v began started in
      let (d', n', c') = transaction_control u x done committed in
      (
        v,
        u,
        ran ∙ ap (λ p. (p.0, u)) last,
        d,
        n,
        c,
        sym (ap (λ p. p.1.database) last) ∙ d',
        sym (ap (λ p. p.1.nsu) last) ∙ n',
        sym (ap (λ p. p.1.calls) last) ∙ c',
      )

roll_back-err :
    {A : Type 0} (db : Database) (r : Result A × World) {e : Error} {w : World}
    → roll_back db r ≡ (err e, w)
    → w.database ≡ db
roll_back-err db (ok b, v) h = absurd (cc (ap (λ p. p.0) h))
roll_back-err db (err x, v) h = sym (ap (λ p. p.1.database) h)

-- A run that succeeds did what P says; one that fails left every table as it was.
abbrev pub AllOrNothing :
    {A : Type 0} → (World → A → World → Type 0) → World → Result A × World → Type 0
AllOrNothing P w (ok a, w') = P w a w'
AllOrNothing P w (err e, w') = w'.database ≡ w.database

pub all_or_nothing :
    {A : Type 0} (P : World → A → World → Type 0) (w : World) (r : Result A × World)
    → ((a : A) (w' : World) → r ≡ (ok a, w') → P w a w')
    → ((e : Error) (w' : World) → r ≡ (err e, w') → w'.database ≡ w.database)
    → AllOrNothing P w r
all_or_nothing P w (ok a, w') h k = h a w' refl
all_or_nothing P w (err e, w') h k = k e w' refl

-- A world without its script of faults, which no property below speaks of.
abbrev pub plain : World → World
plain w = record w { faults = [] }

pub same_world :
    (w v : World) → v.database ≡ w.database → v.nsu ≡ w.nsu → v.calls ≡ w.calls → plain v ≡ plain w
same_world w v d n c i = record { database = d i; faults = []; nsu = n i; calls = c i }

-- What holds of every successful run of a function, and does not speak of faults, holds of the
-- successful runs of the function in a unit of work.
pub in_unit_of_work :
    {A : Type 0} (P : World → A → World → Type 0) (fn : Action A) (w : World) {a : A} {w' : World}
    → unit_of_work fn w ≡ (ok a, w')
    → ((v u : World) → fn v ≡ (ok a, u) → P (plain v) a (plain u))
    → P (plain w) a (plain w')
in_unit_of_work P fn w {a} {w'} h k =
    let (v, u, ran, d, n, c, d', n', c') = unit_of_work-ok fn w h in
    subst (λ x. P x a (plain w')) (same_world w v d n c)
      (subst (λ y. P (plain v) a y) (sym (same_world u w' d' n' c')) (k v u ran))

pub unit_of_work-err :
    {A : Type 0} (fn : Action A) (w : World) {e : Error} {w' : World}
    → unit_of_work fn w ≡ (err e, w')
    → w'.database ≡ w.database
unfolding unit_of_work
unit_of_work-err fn w h = roll_back-err w.database _ h
