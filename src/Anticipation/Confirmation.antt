-- ===== src/Anticipation/Confirmation.antt =====
-- `Confirm`: the receivables of an offer are marked as sold to it.
use adquirente.Base.{
  ◌≡◌, refl, ap, sym, inl, inr, String, Option, none, List, [], ◌∷◌, ◌++◌, length, All, map, ==_iff,
}
use adquirente.Base.Int.{pos}
use adquirente.Base.Int64.{add64}
use adquirente.Shared.Error.{Error, ok}
use adquirente.Shared.Time.{Time}
use adquirente.Receivable as Due
use adquirente.Receivable.{Receivable, anticipate}
use mathlib.Core.Path.{subst}
use adquirente.Receivable.Graph.{◌⟶◌, advance, anticipate_call, perform_cases}
use adquirente.Anticipation.{Anticipation, simulated, confirmed, anticipate_all, confirm}

-- The receivable that is sold to an anticipation.
abbrev pub sold_to : String → Time → Receivable → Receivable
sold_to id now r = record r {
  status = Due.anticipated;
  version = add64 r.version (pos 1);
  updated_at = now;
  anticipation_id = id;
}

anticipate_one :
    (id : String) (now : Time) (r : Receivable)
    → r.status ≡ Due.scheduled
    → anticipate id now r ≡ (sold_to id now r, none)
anticipate_one id now r h = elim (perform_cases (anticipate_call id) now r) [
  | inl (edge, eq) ↦ eq
  | inr (no_edge, eq) ↦ absurd (no_edge (subst (λ st. st ⟶ Due.anticipated) (sym h) advance))
]

anticipate_all_lem :
    (id : String) (now : Time) (rs : List Receivable)
    → All (λ r. r.status ≡ Due.scheduled) rs
    → anticipate_all id now rs ≡ (map (sold_to id now) rs, ok (map (λ r. r.id) rs))
unfolding anticipate_all
anticipate_all_lem id now [] h = refl
anticipate_all_lem id now (r ∷ rs) (h, hs) =
    rw (anticipate_one id now r h, anticipate_all_lem id now rs hs)

-- How a confirmation of scheduled receivables ends.
abbrev pub Confirms :
    Time → List Receivable → Anticipation → Anticipation × List Receivable × Option Error → Type 0
Confirms now rs a (a', rs', e) =
    (e ≡ none)
    × (rs' ≡ map (sold_to a.id now) rs)
    × (a'.status ≡ confirmed)
    × (a'.version ≡ add64 a.version (pos 1))
    × (a'.gross ≡ a.gross)
    × (map (λ ev. ev.receivable_ids) a'.events
        ≡ map (λ ev. ev.receivable_ids) a.events ++ map (λ r. r.id) rs ∷ [])

map-append : {A B : Type 0} (f : A → B) (xs ys : List A) → map f (xs ++ ys) ≡ map f xs ++ map f ys
map-append f [] ys = refl
map-append f (x ∷ xs) ys = ap (λ l. f x ∷ l) (map-append f xs ys)

-- A simulated offer is confirmed on scheduled receivables, as many as its items: every one of them
-- is then anticipated and refers to the offer, the offer is confirmed with the same amount, and its
-- one new event names exactly these receivables, in their order.
pub confirm-Confirms :
    (event_id : String) (rs : List Receivable) (now : Time) (a : Anticipation)
    → a.status ≡ simulated
    → length rs ≡ length a.items
    → All (λ r. r.status ≡ Due.scheduled) rs
    → Confirms now rs a (confirm event_id rs now a)
unfolding confirm
confirm-Confirms event_id rs now a s n h =
    let same = (==_iff (length rs) (length a.items)).1 n in
    let sold = anticipate_all_lem a.id now rs h in
    rw (s, same, sold)
      (refl, refl, refl, refl, refl, map-append (λ ev. ev.receivable_ids) a.events _)
