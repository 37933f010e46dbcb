-- ===== src/Store/Failure.antt =====
-- Which steps leave the tables alone: always, or whenever they fail.
use adquirente.Base.{◌≡◌, refl, sym, ap, ◌∙◌, Option, none, some, List, [], ◌∷◌}
use adquirente.Shared.Error.{Error, Result, ok, err, Outcome}
use adquirente.Store.{
  Database, World, Action, Call, lift, applied, call, continue_with, ◌>>=◌, answered, statement,
  unit_of_work,
}
use adquirente.Store.Tables.{selected}
use adquirente.Store.Laws.{unit_of_work-err}

-- The tables are the same after the step, however it ends.
abbrev pub IsReading : {A : Type 0} → Action A → Type 0
IsReading m = (w : World) → (m w).1.database ≡ w.database

-- The tables are the same after the step if it fails.
abbrev pub FailsClean : {A : Type 0} → Action A → Type 0
FailsClean m = (w : World) (e : Error) (w' : World) → m w ≡ (err e, w') → w'.database ≡ w.database

pub lift-IsReading : {A : Type 0} (r : Result A) → IsReading (lift r)
lift-IsReading r w = refl

pub applied-IsReading : {S : Type 0} (o : Outcome S) → IsReading (applied o)
applied-IsReading (s, none) w = refl
applied-IsReading (s, some e) w = refl

pub call-IsReading : (c : Call) → IsReading (call c)
call-IsReading c w = refl

answered-reads :
    {A : Type 0} (r : Result A) (w : World) (faults : List (Option Error))
    → (answered (selected w.database r) w faults).1.database ≡ w.database
answered-reads (ok a) w [] = refl
answered-reads (ok a) w (none ∷ faults) = refl
answered-reads (ok a) w (some e ∷ faults) = refl
answered-reads (err e) w [] = refl
answered-reads (err e) w (none ∷ faults) = refl
answered-reads (err e) w (some x ∷ faults) = refl

-- A query.
pub query-IsReading :
    {A : Type 0} (get : Database → Result A) → IsReading (statement λ db. selected db (get db))
unfolding statement
query-IsReading get w = answered-reads (get w.database) w w.faults

continue-reads :
    {A B : Type 0} (r : Result A × World) (next : A → Action B)
    → ((a : A) → IsReading (next a))
    → (continue_with next r).1.database ≡ r.1.database
continue-reads (ok a, w) next h = h a w
continue-reads (err e, w) next h = refl

pub then-IsReading :
    {A B : Type 0} (m : Action A) (next : A → Action B)
    → IsReading m
    → ((a : A) → IsReading (next a))
    → IsReading (m >>= next)
then-IsReading m next h k w = continue-reads (m w) next k ∙ h w

continue-fails :
    {A B : Type 0} (r : Result A × World) (next : A → Action B)
    → ((a : A) → FailsClean (next a))
    → (e : Error) (w' : World) → continue_with next r ≡ (err e, w')
    → w'.database ≡ r.1.database
continue-fails (ok a, w) next h e w' eq = h a w e w' eq
continue-fails (err x, w) next h e w' eq = sym (ap (λ p. p.1.database) eq)

-- Steps that only read, and then one that fails clean.
pub then-FailsClean :
    {A B : Type 0} (m : Action A) (next : A → Action B)
    → IsReading m
    → ((a : A) → FailsClean (next a))
    → FailsClean (m >>= next)
then-FailsClean m next h k w e w' eq = continue-fails (m w) next k e w' eq ∙ h w

pub reading-FailsClean : {A : Type 0} (m : Action A) → IsReading m → FailsClean m
reading-FailsClean m h w e w' eq = sym (ap (λ p. p.1.database) eq) ∙ h w

pub unit_of_work-FailsClean : {A : Type 0} (fn : Action A) → FailsClean (unit_of_work fn)
unit_of_work-FailsClean fn w e w' eq = unit_of_work-err fn w eq
