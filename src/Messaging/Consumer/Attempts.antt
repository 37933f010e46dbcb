-- ===== src/Messaging/Consumer/Attempts.antt =====
-- How the attempts on a message end.
use adquirente.Base.{
  ℕ, zero, suc, ◌+◌, ◌≤◌, ◌≡◌, refl, ap, ◌⊎◌, inl, inr, Bool, Bool-cases, true, false, arith,
}
use adquirente.Shared.Error.{Error, Result, ok, err}
use adquirente.Store.{World, Action}
use adquirente.Messaging.Consumer.{
  is_permanent, Ending, handled, abandoned, dead, attempt, after_attempt,
}
use mathlib.Core.Path.{subst}

-- `Tries run n w v`: n attempts in a row failed with an error that is not permanent, from w to v.
pub data Tries (run : Action (Unit {0})) : ℕ → World → World → Type 0 where
  no_failure : (w : World) → Tries run zero w w
  one_failure :
      {n : ℕ} {w u v : World} (e : Error)
      → run w ≡ (err e, u)
      → is_permanent e ≡ false
      → Tries run n u v
      → Tries run (suc n) w v

module _ (run : Action (Unit {0})) (is_done : ℕ → Bool) where
  -- After at most `left` failures that are not permanent: the handler accepted the message; or it
  -- failed again and the context was done; or the last error is permanent, or no attempt is left.
  abbrev pub Ends : ℕ → ℕ → World → Ending × World → Type 0
  Ends left k w (handled, w') =
      (n : ℕ) × (n ≤ left) × (v : World) × Tries run n w v × (run v ≡ (ok tt, w'))
  Ends left k w (abandoned, w') =
      (n : ℕ) × (n ≤ left)
      × (v : World) × Tries run n w v
      × ((e : Error) × (run v ≡ (err e, w')) × (is_permanent e ≡ false))
      × (is_done (k + n) ≡ true)
  Ends left k w (dead e, w') =
      (n : ℕ) × (n ≤ left)
      × (v : World) × Tries run n w v
      × (run v ≡ (err e, w'))
      × ((is_permanent e ≡ true) ⊎ (n ≡ left))

  -- One more failure before.
  failed_once :
      (left k : ℕ) (w u : World) (e : Error) (r : Ending × World)
      → run w ≡ (err e, u)
      → is_permanent e ≡ false
      → Ends left (suc k) u r
      → Ends (suc left) k w r
  failed_once left k w u e (handled, w') ran soft (n, few, v, tries, last) =
      (suc n, omega (arith, few), v, one_failure e ran soft tries, last)
  failed_once left k w u e (abandoned, w') ran soft (n, few, v, tries, last, done) = (
    suc n,
    omega (arith, few),
    v,
    one_failure e ran soft tries,
    last,
    subst (λ j. is_done j ≡ true) (omega arith) done,
  )
  failed_once left k w u e (dead e', w') ran soft (n, few, v, tries, last, why) = (
    suc n,
    omega (arith, few),
    v,
    one_failure e ran soft tries,
    last,
    elim why [ inl hard ↦ inl hard | inr all ↦ inr (ap suc all) ],
  )

  -- After an attempt from w, by what comes after a failure that is not permanent.
  after_attempt-Ends :
      (left k : ℕ) (w : World) (again : Error → World → Ending × World)
      (r : Result (Unit {0}) × World)
      → run w ≡ r
      → ((e : Error) (u : World)
          → run w ≡ (err e, u)
          → is_permanent e ≡ false
          → Ends left k w (again e u))
      → Ends left k w (after_attempt is_done k again r)
  after_attempt-Ends left k w again (ok u, w') ran h = (0, omega arith, w, no_failure w, ran)
  after_attempt-Ends left k w again (err e, w') ran h = elim (Bool-cases (is_permanent e)) [
    | inl hard ↦ rw hard (0, omega arith, w, no_failure w, ran, inl hard)
    | inr soft ↦ elim (Bool-cases (is_done k)) [
      | inl done ↦
          rw (soft, done)
            (
              0,
              omega arith,
              w,
              no_failure w,
              (e, ran, soft),
              subst (λ j. is_done j ≡ true) (omega arith) done,
            )
      | inr going ↦ rw (soft, going) (h e w' ran soft)
    ]
  ]

  -- The loop makes one attempt more than `left` at most, and tries again exactly after an error that
  -- is not permanent while the context goes on.
  pub attempt-Ends : (left k : ℕ) (w : World) → Ends left k w (attempt run is_done left k w)
  unfolding attempt
  attempt-Ends zero k w =
      after_attempt-Ends zero k w (λ e v. (dead e, v)) (run w) refl
        λ e u ran soft. (0, omega arith, w, no_failure w, ran, inr refl)
  attempt-Ends (suc left) k w =
      after_attempt-Ends (suc left) k w (λ e v. attempt run is_done left (suc k) v) (run w) refl
        λ e u ran soft.
          failed_once left k w u e (attempt run is_done left (suc k) u) ran soft
            (attempt-Ends left (suc k) u)
