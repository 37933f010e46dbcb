-- ===== src/Messaging/Relay/Drain.antt =====
-- The relay empties its queue.
use mathlib.Core.Path.{subst}
use mathlib.Core.List.{append-nil, append_assoc, map-append}
use adquirente.Base.{
  ℕ, zero, suc, ◌≤◌, ◌+◌, ◌<◌, ◌≡◌, refl, sym, ap, ◌∙◌, ◌⊎◌, inl, inr, Bool-cases, ◌==◌, ==_iff,
  Option, none, some, List, [], ◌∷◌, ◌++◌, length, if◌then◌else◌, arith,
}
use adquirente.Shared.Error.{Error}
use adquirente.Messaging.{OutboxRow, Message, IsAcknowledged}
use adquirente.Messaging.Relay.{
  where_free, message_of, mark, limited, Broker, Round, pending, mark_published, publish_pending,
  publish_batch, drain,
}
use adquirente.Messaging.Relay.Order.{Ascending, mark-Ascending}
use adquirente.Messaging.Relay.Sending.{ids_of, messages, IsCut, Sends, publish_batch-Sends}
use adquirente.Messaging.Relay.Queue.{
  limited-without, queue, without, queue-mark, IsAlone, alone-queue,
}

module _ {Payload : Type 0} where
  -- Nothing fails in the round, the driver delivers the whole batch, and no other relay runs.
  abbrev pub IsClean : ℕ → Round Payload → Type 0
  IsClean batch d =
      (d.begin_error ≡ none)
      × (d.select_error ≡ none)
      × (d.update_error ≡ none)
      × (d.commit_error ≡ none)
      × (batch ≤ d.delivered)
      × IsAlone d
      × IsAcknowledged d.writer
      × ((m : Message Payload) → d.writer.write_error m ≡ none)

  limited-enough :
      (n k : ℕ) (xs : List (OutboxRow Payload)) → n ≤ k → limited k (limited n xs) ≡ limited n xs
  limited-enough zero zero xs h = refl
  limited-enough zero (suc k) xs h = refl
  limited-enough (suc n) zero xs h = absurd (omega (arith, h))
  limited-enough (suc n) (suc k) [] h = refl
  limited-enough (suc n) (suc k) (x ∷ xs) h =
      ap (λ ys. x ∷ ys) (limited-enough n k xs (omega (arith, h)))

  -- Less than the limit is all there is.
  without-short :
      (n : ℕ) (xs : List (OutboxRow Payload)) → (length (limited n xs) ≡ n) ⊎ (without n xs ≡ [])
  without-short zero xs = inl refl
  without-short (suc n) [] = inr refl
  without-short (suc n) (x ∷ xs) = elim (without-short n xs) [
    | inl full ↦ inl (ap suc full)
    | inr all ↦ inr all
  ]

  length-without :
      (n : ℕ) (xs : List (OutboxRow Payload))
      → length (limited n xs) + length (without n xs) ≡ length xs
  length-without zero xs = omega arith
  length-without (suc n) [] = omega arith
  length-without (suc n) (x ∷ xs) = omega (arith, length-without n xs)

  no_cut :
      (d : Round Payload)
      → ((m : Message Payload) → d.writer.write_error m ≡ none)
      → (rest : List (OutboxRow Payload)) (lost : List (Message Payload)) → IsCut d.writer rest lost
      → (rest ≡ []) × (lost ≡ [])
  no_cut d fine [] lost cut = (refl, cut)
  no_cut d fine (x ∷ rest) lost ((e, refused), cut) = absurd (cc (fine (message_of x), refused))

  -- What a clean round leaves.
  abbrev pub Advances : ℕ → Broker Payload → (ℕ × Option Error) × Broker Payload → Type 0
  Advances batch b ((n, e), b') =
      (n ≡ length (limited batch (queue b.rows)))
      × Ascending b'.rows
      × (queue b'.rows ≡ without batch (queue b.rows))
      × (b'.log ≡ b.log ++ messages (limited batch (queue b.rows)))

  Sends-Advances :
      (d : Round Payload) (batch : ℕ) (b : Broker Payload) (r : (ℕ × Option Error) × Broker Payload)
      → r.0.1 ≡ none
      → ((m : Message Payload) → d.writer.write_error m ≡ none)
      → Ascending b.rows
      → limited batch (queue b.rows) ≡ pending d batch b
      → Sends d (pending d batch b) b r
      → Advances batch b r
  Sends-Advances d batch b ((n, e), b') quiet fine up all
        (sent, rest, lost, (split, acked, cut), log, inr ((reason, failed), rows)) =
      absurd cc
  Sends-Advances d batch b ((n, e), b') quiet fine up all
        (sent, rest, lost, (split, acked, cut), log, inl (ok, count, rows)) =
      let (none_left, nothing_lost) = no_cut d fine rest lost cut in
      let whole : limited batch (queue b.rows) ≡ sent =
        all ∙ split ∙ ap (λ xs. sent ++ xs) none_left ∙ append-nil sent in
      let marked : b'.rows ≡ mark (ids_of (limited batch (queue b.rows))) b.rows =
        rows ∙ ap (λ xs. mark (ids_of xs) b.rows) (sym whole) in
      (
        count ∙ ap length (sym whole),
        subst Ascending (sym marked)
            (mark-Ascending (ids_of (limited batch (queue b.rows))) b.rows up),
        ap queue marked ∙ queue-mark batch b.rows up,
        log
            ∙ ap (λ l. (b.log ++ messages sent) ++ l) nothing_lost
            ∙ append-nil (b.log ++ messages sent)
            ∙ ap (λ xs. b.log ++ messages xs) (sym whole),
      )

  mark_published-quiet :
      (d : Round Payload) (ids : List ℕ) (b : Broker Payload)
      → d.update_error ≡ none
      → d.commit_error ≡ none
      → (mark_published d ids b).0.1 ≡ none
  mark_published-quiet d [] b updated done = done
  mark_published-quiet d (i ∷ ids) b updated done = rw (updated, done) refl

  publish_pending-quiet :
      (d : Round Payload) (xs : List (OutboxRow Payload)) (b : Broker Payload)
      → d.update_error ≡ none
      → d.commit_error ≡ none
      → (publish_pending d xs b).0.1 ≡ none
  publish_pending-quiet d [] b updated done = refl
  publish_pending-quiet d (x ∷ xs) b updated done = mark_published-quiet d _ _ updated done

  publish_batch-Advances :
      (d : Round Payload) (batch : ℕ) (b : Broker Payload)
      → IsClean batch d
      → Ascending b.rows
      → Advances batch b (publish_batch d batch b)
  unfolding publish_batch
  publish_batch-Advances d batch b (begun, read, updated, done, whole, alone, acks, fine) up =
      let ran : publish_batch d batch b ≡ publish_pending d (pending d batch b) b =
        rw (begun, read) refl in
      let quiet : (publish_batch d batch b).0.1 ≡ none =
        ap (λ r. r.0.1) ran ∙ publish_pending-quiet d (pending d batch b) b updated done in
      elim (publish_batch-Sends d batch b acks) [
        | inl (e, why, failed) ↦ absurd (cc (ap (λ r. r.0.1) failed, quiet))
        | inr sends ↦
            Sends-Advances d batch b (publish_batch d batch b) quiet fine up
              (ap (limited batch) (sym (alone-queue d.is_locked b.rows alone))
                ∙ sym (limited-enough batch d.delivered (where_free d.is_locked b.rows) whole))
              sends
      ]

  -- The topics got the whole queue, in its order, each message once.
  abbrev pub Empties : Broker Payload → Option (Broker Payload) → Type 0
  Empties b o =
      (b' : Broker Payload) × (o ≡ some b')
      × (queue b'.rows ≡ [])
      × (b'.log ≡ b.log ++ messages (queue b.rows))

  -- After a round: on with the rest when the batch was full, or the end.
  Advances-Empties :
      (n : ℕ) (b : Broker Payload) (r : (ℕ × Option Error) × Broker Payload)
      (rest : Option (Broker Payload))
      → Advances (suc n) b r
      → (length (queue r.1.rows) < length (queue b.rows) → Empties r.1 rest)
      → Empties b (if r.0.0 == suc n then rest else some r.1)
  Advances-Empties n b ((count, e), b') rest (size, up, left, log) later =
      let q = queue b.rows in
      let whole : (b.log ++ messages (limited (suc n) q)) ++ messages (without (suc n) q)
          ≡ b.log ++ messages q =
        append_assoc b.log (messages (limited (suc n) q)) (messages (without (suc n) q))
        ∙ ap (λ ms. b.log ++ ms)
            (sym (map-append message_of (limited (suc n) q) (without (suc n) q)))
        ∙ ap (λ xs. b.log ++ messages xs) (limited-without (suc n) q) in
      elim (Bool-cases (count == suc n)) [
        | inl full ↦
            let fewer : length (queue b'.rows) < length q = omega (
              arith,
              (==_iff count (suc n)).0 full,
              size,
              ap length left,
              length-without (suc n) q,
            ) in
            let (c, ends, empty, log') = later fewer in
            rw full (
              c,
              ends,
              empty,
              log'
                  ∙ ap (λ l. l ++ messages (queue b'.rows)) log
                  ∙ ap (λ xs. (b.log ++ messages (limited (suc n) q)) ++ messages xs) left
                  ∙ whole,
            )
        | inr short ↦
            let gone : without (suc n) q ≡ [] = elim (without-short (suc n) q) [
              | inl k ↦ absurd (cc ((==_iff count (suc n)).1 (size ∙ k), short))
              | inr all ↦ all
            ] in
            rw short (
              b',
              refl,
              left ∙ gone,
              log
                  ∙ sym (append-nil (b.log ++ messages (limited (suc n) q)))
                  ∙ ap (λ xs. (b.log ++ messages (limited (suc n) q)) ++ messages xs) (sym gone)
                  ∙ whole,
            )
      ]

  -- Let the rows stand in the order of their keys and the batch size be positive. While nothing
  -- fails, the driver delivers whole batches and no other relay runs, the rounds that follow one another without waiting end once
  -- more of them are allowed than rows wait, and by then no row waits, and the messages of the
  -- rows that waited were added to the topics, each once and in order.
  pub drain-Empties :
      (ds : ℕ → Round Payload) (n fuel k : ℕ) (b : Broker Payload)
      → ((j : ℕ) → IsClean (suc n) (ds j))
      → Ascending b.rows
      → length (queue b.rows) < fuel
      → Empties b (drain ds (suc n) fuel k b)
  unfolding drain
  drain-Empties ds n zero k b clean up enough = absurd (omega (arith, enough))
  drain-Empties ds n (suc fuel) k b clean up enough =
      let step = publish_batch-Advances (ds k) (suc n) b (clean k) up in
      Advances-Empties n b (publish_batch (ds k) (suc n) b)
        (drain ds (suc n) fuel (suc k) (publish_batch (ds k) (suc n) b).1) step
        λ fewer.
          drain-Empties ds n fuel (suc k) (publish_batch (ds k) (suc n) b).1 clean step.1
            (omega (arith, fewer, enough))
