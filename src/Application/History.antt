-- ===== src/Application/History.antt =====
-- What no use case takes away: the ledger, the outbox and the events that count as processed only
-- grow, and the ledger by balanced lots.
pub mod UseCases
pub mod Reach
use mathlib.Core.Path.{subst}
use mathlib.Core.List.{append-nil, append_assoc}
use adquirente.Base.{◌≡◌, refl, sym, ap, ◌∙◌, true, String, List, [], ◌∷◌, ◌++◌}
use adquirente.Shared.Error.{Error, Result, ok, err}
use adquirente.Ledger.{Entry, balanced}
use adquirente.Ledger.Balance.{balanced-append, balanced_nil}
use adquirente.Store.{Database, World, Action, OutboxEvent, continue_with, ◌>>=◌, unit_of_work}
use adquirente.Store.Laws.{
  after_ok, AllOrNothing, all_or_nothing, in_unit_of_work, unit_of_work-err,
}

-- From one database to a later one: entries that balance, events, and events that count as processed,
-- were added at the ends.
abbrev pub Grows : Database → Database → Type 0
Grows db db' =
    (es : List Entry) × (evs : List OutboxEvent) × (ps : List (String × String)) × (balanced es
      ≡ true)
    × (db'.ledger_entries ≡ db.ledger_entries ++ es)
    × (db'.outbox ≡ db.outbox ++ evs)
    × (db'.processed_events ≡ db.processed_events ++ ps)

-- The three tables are as they were.
pub Grows-same :
    (db db' : Database)
    → db'.ledger_entries ≡ db.ledger_entries
    → db'.outbox ≡ db.outbox
    → db'.processed_events ≡ db.processed_events
    → Grows db db'
Grows-same db db' ledger outbox marks = (
  [],
  [],
  [],
  balanced_nil,
  ledger ∙ sym (append-nil db.ledger_entries),
  outbox ∙ sym (append-nil db.outbox),
  marks ∙ sym (append-nil db.processed_events),
)

pub Grows-refl : (db db' : Database) → db' ≡ db → Grows db db'
Grows-refl db db' h =
    Grows-same db db' (ap (λ x. x.ledger_entries) h) (ap (λ x. x.outbox) h)
      (ap (λ x. x.processed_events) h)

-- Only events were added.
pub Grows-events :
    (db db' : Database) (evs : List OutboxEvent)
    → db'.ledger_entries ≡ db.ledger_entries
    → db'.outbox ≡ db.outbox ++ evs
    → db'.processed_events ≡ db.processed_events
    → Grows db db'
Grows-events db db' evs ledger outbox marks = (
  [],
  evs,
  [],
  balanced_nil,
  ledger ∙ sym (append-nil db.ledger_entries),
  outbox,
  marks ∙ sym (append-nil db.processed_events),
)

pub Grows-trans : (a b c : Database) → Grows a b → Grows b c → Grows a c
Grows-trans a b c (es, evs, ps, fits, ledger, outbox, marks)
      (es', evs', ps', fits', ledger', outbox', marks') =
    (
      es ++ es',
      evs ++ evs',
      ps ++ ps',
      balanced-append es es' fits fits',
      ledger' ∙ ap (λ xs. xs ++ es') ledger ∙ append_assoc a.ledger_entries es es',
      outbox' ∙ ap (λ xs. xs ++ evs') outbox ∙ append_assoc a.outbox evs evs',
      marks' ∙ ap (λ xs. xs ++ ps') marks ∙ append_assoc a.processed_events ps ps',
    )

-- However the action ends.
abbrev pub Growing : {A : Type 0} → Action A → Type 0
Growing m = (w : World) → Grows w.database (m w).1.database

-- If the action succeeds.
abbrev pub GrowsIfOk : {A : Type 0} → Action A → Type 0
GrowsIfOk {A} m = (w : World) (a : A) (w' : World) → m w ≡ (ok a, w') → Grows w.database w'.database

-- What a run did, or nothing.
pub AllOrNothing-Growing :
    {A : Type 0} (P : World → A → World → Type 0) (w : World) (r : Result A × World)
    → ((a : A) (w' : World) → P w a w' → Grows w.database w'.database)
    → AllOrNothing P w r
    → Grows w.database r.1.database
AllOrNothing-Growing P w (ok a, w') h p = h a w' p
AllOrNothing-Growing P w (err e, w') h p = Grows-refl w.database w'.database p

pub unit_of_work-Growing : {A : Type 0} (fn : Action A) → GrowsIfOk fn → Growing (unit_of_work fn)
unit_of_work-Growing fn h w =
    AllOrNothing-Growing (λ x b y. Grows x.database y.database) w (unit_of_work fn w) (λ a w' p. p)
      (all_or_nothing (λ x b y. Grows x.database y.database) w (unit_of_work fn w)
        (λ a w' ran.
          in_unit_of_work (λ x b y. Grows x.database y.database) fn w ran
            (λ x y inner. h x a y inner))
        (λ e w' failed. unit_of_work-err fn w failed))

continue_with-Growing :
    {A B : Type 0} (db : Database) (r : Result A × World) (next : A → Action B)
    → Grows db r.1.database
    → ((a : A) → Growing (next a))
    → Grows db (continue_with next r).1.database
continue_with-Growing db (ok a, w) next h k =
    Grows-trans db w.database (next a w).1.database h (k a w)
continue_with-Growing db (err e, w) next h k = h

pub then-Growing :
    {A B : Type 0} (m : Action A) (next : A → Action B)
    → Growing m
    → ((a : A) → Growing (next a))
    → Growing (m >>= next)
then-Growing m next h k w = continue_with-Growing w.database (m w) next (h w) k

pub then-GrowsIfOk :
    {A B : Type 0} (m : Action A) (next : A → Action B)
    → GrowsIfOk m
    → ((a : A) → GrowsIfOk (next a))
    → GrowsIfOk (m >>= next)
then-GrowsIfOk m next h k w b w' ran = after_ok (m w) next ran λ a v first rest.
    Grows-trans w.database v.database w'.database (h w a v first) (k a v b w' rest)

-- A step that leaves the tables alone.
pub reading-Growing :
    {A : Type 0} (m : Action A) → ((w : World) → (m w).1.database ≡ w.database) → Growing m
reading-Growing m h w = Grows-refl w.database (m w).1.database (h w)

pub Growing-GrowsIfOk : {A : Type 0} (m : Action A) → Growing m → GrowsIfOk m
Growing-GrowsIfOk m h w a w' ran = subst (λ r. Grows w.database r.1.database) ran (h w)
