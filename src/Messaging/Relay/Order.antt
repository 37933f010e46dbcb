-- ===== src/Messaging/Relay/Order.antt =====
-- The rows in the order of their keys, and the tests of a statement on them.
use mathlib.Core.Path.{subst}
use mathlib.Core.List.{Memᴰ}
use mathlib.Core.List.Memᴰ.{head, tail}
use adquirente.Base.{
  ℕ, zero, suc, Bool, if◌then◌else◌, ◌<◌, ◌≡◌, sym, ap, ◌∙◌, Bool-cases, inl, inr, ltb, ltb→lt,
  ◌==◌, ◌||◌, List, [], ◌∷◌, All, arith,
}
use adquirente.Messaging.{OutboxRow}
use adquirente.Messaging.Relay.{where_free, limited, mark, add_row}

module _ {Payload : Type 0} where
  -- The keys ascend, each once.
  abbrev pub Ascending : List (OutboxRow Payload) → Type 0
  Ascending [] = Unit
  Ascending (x ∷ xs) = All (λ y. x.id < y.id) xs × Ascending xs

  pub All-mem :
      (P : OutboxRow Payload → Type 0) {x : OutboxRow Payload} (xs : List (OutboxRow Payload))
      → All P xs
      → Memᴰ x xs
      → P x
  All-mem P [] a m = elim m [ ]
  All-mem P (y ∷ ys) (p, ps) (head e) = subst P (sym e) p
  All-mem P (y ∷ ys) (p, ps) (tail m) = All-mem P ys ps m

  pub All-weaken :
      {P Q : OutboxRow Payload → Type 0} (xs : List (OutboxRow Payload))
      → ((x : OutboxRow Payload) → P x → Q x)
      → All P xs
      → All Q xs
  All-weaken [] h a = tt
  All-weaken (x ∷ xs) h (p, ps) = (h x p, All-weaken xs h ps)

  -- A key names one row.
  pub same_key :
      {x y : OutboxRow Payload} (xs : List (OutboxRow Payload))
      → Ascending xs
      → Memᴰ x xs
      → Memᴰ y xs
      → x.id ≡ y.id
      → x ≡ y
  same_key [] up m n same = elim m [ ]
  same_key (z ∷ zs) (low, up) (head e) (head f) same = e ∙ sym f
  same_key {x} {y} (z ∷ zs) (low, up) (head e) (tail n) same =
      let less = All-mem (λ v. z.id < v.id) zs low n in
      absurd (omega (arith, less, same, ap (λ v. v.id) e))
  same_key {x} {y} (z ∷ zs) (low, up) (tail m) (head f) same =
      let less = All-mem (λ v. z.id < v.id) zs low m in
      absurd (omega (arith, less, same, ap (λ v. v.id) f))
  same_key (z ∷ zs) (low, up) (tail m) (tail n) same = same_key zs up m n same

  pub limited-mem :
      {x : OutboxRow Payload} (n : ℕ) (xs : List (OutboxRow Payload))
      → Memᴰ x (limited n xs)
      → Memᴰ x xs
  limited-mem zero xs m = elim m [ ]
  limited-mem (suc n) [] m = elim m [ ]
  limited-mem (suc n) (y ∷ ys) (head e) = head e
  limited-mem (suc n) (y ∷ ys) (tail m) = tail (limited-mem n ys m)

  pub where_free-mem :
      {x : OutboxRow Payload} (is_locked : ℕ → Bool) (xs : List (OutboxRow Payload))
      → Memᴰ x (where_free is_locked xs)
      → Memᴰ x xs
  where_free-mem is_locked [] m = elim m [ ]
  where_free-mem {x} is_locked (y ∷ ys) m = elim (Bool-cases (y.is_published || is_locked y.id)) [
    | inl kept ↦ tail (
        where_free-mem is_locked ys (
          subst (λ b. Memᴰ x (if b then where_free is_locked ys else y ∷ where_free is_locked ys))
            kept m))
    | inr free ↦
        elim (subst
          (λ b. Memᴰ x (if b then where_free is_locked ys else y ∷ where_free is_locked ys)) free
          m) [ head e ↦ head e | tail n ↦ tail (where_free-mem is_locked ys n) ]
  ]

  -- Marking changes no key.
  pub mark-Ascending :
      (ids : List ℕ) (xs : List (OutboxRow Payload)) → Ascending xs → Ascending (mark ids xs)
  mark-Ascending ids [] up = tt
  mark-Ascending ids (x ∷ xs) (low, up) = (mark-All ids xs x.id low, mark-Ascending ids xs up)
    where
      mark-All :
          (ids : List ℕ) (xs : List (OutboxRow Payload)) (k : ℕ)
          → All (λ y. k < y.id) xs
          → All (λ y. k < y.id) (mark ids xs)
      mark-All ids [] k a = tt
      mark-All ids (x ∷ xs) k (p, ps) = (p, mark-All ids xs k ps)

  add_row-All :
      (k : ℕ) (x : OutboxRow Payload) (xs : List (OutboxRow Payload))
      → k < x.id
      → All (λ y. k < y.id) xs
      → All (λ y. k < y.id) (add_row x xs)
  add_row-All k x [] less a = (less, tt)
  add_row-All k x (y ∷ ys) less (p, ps) = elim (Bool-cases (ltb x.id y.id)) [
    | inl before ↦ rw before (less, (p, ps))
    | inr other ↦ elim (Bool-cases (x.id == y.id)) [
      | inl taken ↦ rw (other, taken) (p, ps)
      | inr after ↦ rw (other, after) (p, add_row-All k x ys less ps)
    ]
  ]

  -- A new row keeps the order.
  pub add_row-Ascending :
      (x : OutboxRow Payload) (xs : List (OutboxRow Payload))
      → Ascending xs
      → Ascending (add_row x xs)
  add_row-Ascending x [] up = (tt, tt)
  add_row-Ascending x (y ∷ ys) (low, up) = elim (Bool-cases (ltb x.id y.id)) [
    | inl before ↦ rw before (
      (
        ltb→lt x.id y.id before,
        All-weaken ys (λ z less. omega (arith, less, ltb→lt x.id y.id before)) low,
      ),
      (low, up),
    )
    | inr other ↦ elim (Bool-cases (x.id == y.id)) [
      | inl taken ↦ rw (other, taken) (low, up)
      | inr after ↦
          rw (other, after) (add_row-All y.id x ys (ground arith) low, add_row-Ascending x ys up)
    ]
  ]
