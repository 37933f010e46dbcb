-- ===== src/Messaging/Relay/Queue.antt =====
-- The relay as a queue: the unpublished rows, first in, first out.
use mathlib.Core.Path.{subst}
use adquirente.Base.{
  ℕ, ◌≤◌, zero, suc, ◌<◌, ◌≡◌, refl, sym, ap, ◌∙◌, inl, inr, Bool, Bool-cases, true, false, ◌||◌,
  ◌==◌, Option, none, some, List, [], ◌∷◌, ◌++◌, length, All, arith,
}
use adquirente.Shared.Error.{Error}
use adquirente.Messaging.{OutboxRow, Message, IsAcknowledged}
use adquirente.Messaging.Relay.{
  mark, marked, any_is, where_free, limited, Broker, Round, pending, publish_batch,
}
use adquirente.Messaging.Relay.Order.{Ascending}
use adquirente.Messaging.Relay.Sending.{ids_of, messages, mark_nil, Sends, publish_batch-Sends}

or_true : (b c : Bool) → c ≡ true → (b || c) ≡ true
or_true true c h = refl
or_true false c h = h

module _ {Payload : Type 0} where
  -- The rows that wait to be published.
  abbrev pub queue : List (OutboxRow Payload) → List (OutboxRow Payload)
  queue xs = where_free (λ id. false) xs

  -- Without the first n.
  abbrev pub without : ℕ → List (OutboxRow Payload) → List (OutboxRow Payload)
  without zero xs = xs
  without (suc n) [] = []
  without (suc n) (x ∷ xs) = without n xs

  -- A key below all the rows marks none of them.
  mark_below :
      (k : ℕ) (ids : List ℕ) (xs : List (OutboxRow Payload))
      → All (λ x. k < x.id) xs
      → mark (k ∷ ids) xs ≡ mark ids xs
  mark_below k ids [] low = refl
  mark_below k ids (x ∷ xs) (less, low) =
      let other : k == x.id ≡ false = ground arith in rw (other, mark_below k ids xs low) refl

  queue-published :
      (x : OutboxRow Payload) (xs : List (OutboxRow Payload))
      → x.is_published ≡ true
      → queue (x ∷ xs) ≡ queue xs
  queue-published x xs out = rw out refl

  queue-waiting :
      (x : OutboxRow Payload) (xs : List (OutboxRow Payload))
      → x.is_published ≡ false
      → queue (x ∷ xs) ≡ x ∷ queue xs
  queue-waiting x xs waits = rw waits refl

  first_marked :
      (x : OutboxRow Payload) (ids : List ℕ) → (marked (x.id ∷ ids) x).is_published ≡ true
  first_marked x ids = let same : x.id == x.id ≡ true = ground arith in rw same refl

  -- Marking the first rows of the queue takes them from it.
  pub queue-mark :
      (n : ℕ) (xs : List (OutboxRow Payload))
      → Ascending xs
      → queue (mark (ids_of (limited n (queue xs))) xs) ≡ without n (queue xs)
  queue-mark zero xs up = ap queue (mark_nil xs)
  queue-mark (suc n) [] up = refl
  queue-mark (suc n) (x ∷ xs) (low, up) = elim (Bool-cases x.is_published) [
    | inl out ↦
        let taken = queue-published x xs out in
        let ids = ids_of (limited (suc n) (queue xs)) in
        ap (λ q. queue (mark (ids_of (limited (suc n) q)) (x ∷ xs))) taken
        ∙ queue-published (marked ids x) (mark ids xs)
            (or_true (any_is x.id ids) x.is_published out)
        ∙ queue-mark (suc n) xs up
        ∙ ap (without (suc n)) (sym taken)
    | inr waits ↦
        let first = queue-waiting x xs waits in
        let ids = ids_of (limited n (queue xs)) in
        ap (λ q. queue (mark (ids_of (limited (suc n) q)) (x ∷ xs))) first
        ∙ queue-published (marked (x.id ∷ ids) x) (mark (x.id ∷ ids) xs) (first_marked x ids)
        ∙ ap queue (mark_below x.id ids xs low)
        ∙ queue-mark n xs up
        ∙ ap (without (suc n)) (sym first)
  ]

  -- No other transaction holds a row.
  abbrev pub IsAlone : Round Payload → Type 0
  IsAlone d = (id : ℕ) → d.is_locked id ≡ false

  pub alone-queue :
      (is_locked : ℕ → Bool) (xs : List (OutboxRow Payload))
      → ((id : ℕ) → is_locked id ≡ false)
      → where_free is_locked xs ≡ queue xs
  alone-queue is_locked [] alone = refl
  alone-queue is_locked (x ∷ xs) alone = rw (alone x.id, alone-queue is_locked xs alone) refl

  -- A prefix of a limited list is a shorter limit.
  pub limited-prefix :
      (batch : ℕ) (xs sent rest : List (OutboxRow Payload))
      → limited batch xs ≡ sent ++ rest
      → (limited (length sent) xs ≡ sent) × (length sent ≤ batch)
  limited-prefix batch xs [] rest h = (refl, omega arith)
  limited-prefix zero xs (y ∷ sent) rest h = absurd cc
  limited-prefix (suc n) [] (y ∷ sent) rest h = absurd cc
  limited-prefix (suc n) (x ∷ xs) (y ∷ sent) rest h =
      let (same, few) = limited-prefix n xs sent rest cc in (cc, omega (arith, few))

  pub limited-without : (n : ℕ) (xs : List (OutboxRow Payload)) → limited n xs ++ without n xs ≡ xs
  limited-without zero xs = refl
  limited-without (suc n) [] = refl
  limited-without (suc n) (x ∷ xs) = ap (λ ys. x ∷ ys) (limited-without n xs)

  -- The same for the part of it that the driver delivered.
  limited-twice :
      (k batch : ℕ) (xs sent rest : List (OutboxRow Payload))
      → limited k (limited batch xs) ≡ sent ++ rest
      → (limited (length sent) xs ≡ sent) × (length sent ≤ batch)
  limited-twice k batch xs sent rest h =
      let n = length sent in
      let (same, few) = limited-prefix k (limited batch xs) sent rest h in
      limited-prefix batch xs sent (without n (limited batch xs)) (
        sym (limited-without n (limited batch xs))
        ∙ ap (λ ys. ys ++ without n (limited batch xs)) same)

  -- A round without an error takes as many rows from the front of the queue as it counts, and their
  -- messages go to the topics in that order; a round with an error leaves the queue.
  abbrev pub Dequeues : ℕ → Broker Payload → (ℕ × Option Error) × Broker Payload → Type 0
  Dequeues batch b ((n, none), b') =
      (n ≤ batch)
      × (queue b'.rows ≡ without n (queue b.rows))
      × ((lost : List (Message Payload)) × (b'.log
            ≡ (b.log ++ messages (limited n (queue b.rows))) ++ lost))
  Dequeues batch b ((n, some e), b') = queue b'.rows ≡ queue b.rows

  Sends-Dequeues :
      (d : Round Payload) (batch : ℕ) (b : Broker Payload) (r : (ℕ × Option Error) × Broker Payload)
      → Ascending b.rows
      → limited d.delivered (limited batch (queue b.rows)) ≡ pending d batch b
      → Sends d (pending d batch b) b r
      → Dequeues batch b r
  Sends-Dequeues d batch b ((n, none), b') up all
        (sent, rest, lost, (split, fine, cut), log, inl (ok, count, rows)) =
      let (same, few) = limited-twice d.delivered batch (queue b.rows) sent rest (all ∙ split) in
      let first : limited n (queue b.rows) ≡ sent =
        ap (λ k. limited k (queue b.rows)) count ∙ same in
      (
        subst (λ k. k ≤ batch) (sym count) few,
        ap queue (rows ∙ ap (λ xs. mark (ids_of xs) b.rows) (sym first)) ∙ queue-mark n b.rows up,
        (lost, log ∙ ap (λ xs. (b.log ++ messages xs) ++ lost) (sym first)),
      )
  Sends-Dequeues d batch b ((n, some e), b') up all
        (sent, rest, lost, split, log, inl (ok, count, rows)) =
      absurd cc
  Sends-Dequeues d batch b ((n, none), b') up all
        (sent, rest, lost, split, log, inr ((e, failed), rows)) =
      absurd cc
  Sends-Dequeues d batch b ((n, some e'), b') up all
        (sent, rest, lost, split, log, inr ((e, failed), rows)) =
      ap queue rows

  -- Let the rows stand in the order of their keys, no other transaction hold one, and every
  -- acknowledged message be stored. A round without an error takes as many rows from the front of
  -- the unpublished ones as it counts, at most the batch size, and adds their messages to the
  -- topics in that order, possibly with others after them; a round with an error leaves the
  -- unpublished rows as they were.
  pub publish_batch-Dequeues :
      (d : Round Payload) (batch : ℕ) (b : Broker Payload)
      → IsAcknowledged d.writer
      → IsAlone d
      → Ascending b.rows
      → Dequeues batch b (publish_batch d batch b)
  publish_batch-Dequeues d batch b acks alone up = elim (publish_batch-Sends d batch b acks) [
    | inl (e, why, failed) ↦ subst (Dequeues batch b) (sym failed) refl
    | inr sends ↦
        Sends-Dequeues d batch b (publish_batch d batch b) up
          (ap (λ xs. limited d.delivered (limited batch xs))
            (sym (alone-queue d.is_locked b.rows alone)))
          sends
  ]
