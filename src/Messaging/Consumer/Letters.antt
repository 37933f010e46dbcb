-- ===== src/Messaging/Consumer/Letters.antt =====
-- What becomes of a message that is processed.
use adquirente.Base.{
  ℕ, ◌+◌, ◌≤◌, ◌≡◌, refl, ap, ◌⊎◌, inl, inr, Bool-cases, true, false, List, [], ◌∷◌, ◌++◌,
  if◌then◌else◌,
}
use adquirente.Shared.Error.{Error, ok, err}
use adquirente.Store.{World, Action}
use adquirente.Messaging.{Message, written}
use adquirente.Messaging.Consumer.{
  is_permanent, Ending, handled, abandoned, dead, attempt, Consumer, event_type_of, dead_message,
  bury, process,
}
use adquirente.Messaging.Consumer.Attempts.{Tries, Ends, attempt-Ends}

module _ {Payload : Type 0} (c : Consumer Payload) (msg : Message Payload) where
  -- What the handler does with the message.
  abbrev pub run : Action (Unit {0})
  run = c.handler (event_type_of msg) msg.value

  -- The message is a dead letter, or it is lost: the writer did not store it.
  abbrev pub IsBuried : Error → List (Message Payload) → List (Message Payload) → Type 0
  IsBuried e letters letters' =
      ((c.dlq.is_stored (dead_message c msg e) ≡ true)
        × (letters' ≡ letters ++ dead_message c msg e ∷ []))
      ⊎ ((c.dlq.is_stored (dead_message c msg e) ≡ false) × (letters' ≡ letters))

  -- The last attempt, at v after n failures.
  abbrev pub EndsAt : ℕ → World → List (Message Payload) → World × List (Message Payload) → Type 0
  EndsAt n v letters (w', letters') =
      ((run v ≡ (ok tt, w')) × (letters' ≡ letters))
      ⊎ ((e : Error) × (run v ≡ (err e, w'))
          × (((is_permanent e ≡ false) × (c.is_done (1 + n) ≡ true) × (letters' ≡ letters))
              ⊎ (((is_permanent e ≡ true) ⊎ (n ≡ 4)) × IsBuried e letters letters')))

  buried :
      (e : Error) (letters : List (Message Payload))
      → IsBuried e letters (written c.dlq (dead_message c msg e) letters)
  buried e letters = elim (Bool-cases (c.dlq.is_stored (dead_message c msg e))) [
    | inl stored ↦
        inl (stored, ap (λ b. if b then letters ++ dead_message c msg e ∷ [] else letters) stored)
    | inr lost ↦
        inr (lost, ap (λ b. if b then letters ++ dead_message c msg e ∷ [] else letters) lost)
  ]

  Ends-EndsAt :
      (w : World) (letters : List (Message Payload)) (r : Ending × World)
      → Ends run c.is_done 4 1 w r
      → (n : ℕ) × (n ≤ 4)
        × (v : World) × Tries run n w v
        × EndsAt n v letters (r.1, bury c msg r.0 letters)
  Ends-EndsAt w letters (handled, w') (n, few, v, tries, last) =
      (n, few, v, tries, inl (last, refl))
  Ends-EndsAt w letters (abandoned, w') (n, few, v, tries, (e, last, soft), done) =
      (n, few, v, tries, inr (e, last, inl (soft, done, refl)))
  Ends-EndsAt w letters (dead e, w') (n, few, v, tries, last, why) =
      (n, few, v, tries, inr (e, last, inr (why, buried e letters)))

  -- A message goes to its handler at most five times, and after an error only if the error is not
  -- permanent. If the last attempt succeeds, there is no dead letter; if it fails while the context is
  -- done, neither; otherwise its error is permanent or the fifth, and the message is added to the
  -- dead letters once, or is lost when their writer does not store it.
  pub process-Ends :
      (w : World) (letters : List (Message Payload))
      → (n : ℕ) × (n ≤ 4)
        × (v : World) × Tries run n w v
        × EndsAt n v letters (process c msg (w, letters))
  unfolding process
  process-Ends w letters =
      Ends-EndsAt w letters (attempt run c.is_done 4 1 w) (attempt-Ends run c.is_done 4 1 w)
