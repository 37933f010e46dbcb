-- ===== src/Messaging/Relay/Sending.antt =====
-- What a round of the relay does to the topics and to the table, on every branch.
use mathlib.Core.Path.{subst}
use mathlib.Core.List.{append-nil, append_assoc}
use adquirente.Base.{
  ℕ, suc, ◌≡◌, refl, sym, ap, ◌∙◌, ◌⊎◌, inl, inr, Bool, true, false, Option, none, some,
  Option-cases, List, [], ◌∷◌, ◌++◌, map, length, All, if◌then◌else◌,
}
use adquirente.Shared.Error.{Error}
use adquirente.Messaging.{OutboxRow, Message, Writer, IsAcknowledged, written}
use adquirente.Messaging.Relay.{
  message_of, mark, publish_rows, after_write, Broker, Round, pending, mark_published,
  publish_pending, publish_batch,
}

module _ {Payload : Type 0} where
  abbrev pub ids_of : List (OutboxRow Payload) → List ℕ
  ids_of xs = map (λ x. x.id) xs

  abbrev pub messages : List (OutboxRow Payload) → List (Message Payload)
  messages xs = map message_of xs

  -- The broker acknowledged the row.
  abbrev pub Acknowledged : Writer Payload → OutboxRow Payload → Type 0
  Acknowledged wr x = wr.write_error (message_of x) ≡ none

  -- The rows that were left: none, or the first of them was refused. `lost` is what the broker stored
  -- of it all the same.
  abbrev pub IsCut : Writer Payload → List (OutboxRow Payload) → List (Message Payload) → Type 0
  IsCut wr [] lost = lost ≡ []
  IsCut wr (x ∷ rest) lost =
      ((e : Error) × (wr.write_error (message_of x) ≡ some e))
      × (lost ≡ written wr (message_of x) [])

  abbrev pub Splits :
      Writer Payload
      → List (OutboxRow Payload)
      → List (OutboxRow Payload)
      → List (OutboxRow Payload)
      → List (Message Payload)
      → Type 0
  Splits wr xs sent rest lost =
      (xs ≡ sent ++ rest) × All (Acknowledged wr) sent × IsCut wr rest lost

  written_lem :
      (wr : Writer Payload) (m : Message Payload) (log : List (Message Payload))
      → written wr m log ≡ log ++ written wr m []
  written_lem wr m log = go (wr.is_stored m)
    where
      go : (b : Bool) → (if b then log ++ m ∷ [] else log) ≡ log ++ (if b then m ∷ [] else [])
      go true = refl
      go false = sym (append-nil log)

  pub publish_rows_lem :
      (wr : Writer Payload) (xs : List (OutboxRow Payload)) (log : List (Message Payload))
      → IsAcknowledged wr
      → (sent rest : List (OutboxRow Payload)) × (lost : List (Message Payload)) × Splits wr xs sent
          rest lost
        × (publish_rows wr xs log ≡ (ids_of sent, (log ++ messages sent) ++ lost))
  unfolding publish_rows
  publish_rows_lem wr [] log acks = (
    [],
    [],
    [],
    (refl, tt, refl),
    ap (λ l. ([], l)) (sym (append-nil (log ++ []) ∙ append-nil log)),
  )
  publish_rows_lem wr (x ∷ xs) log acks = elim (Option-cases (wr.write_error (message_of x))) [
    | inl taken ↦
        let log' = log ++ message_of x ∷ [] in
        let stored : written wr (message_of x) log ≡ log' =
          ap (λ b. if b then log' else log) (acks (message_of x) taken) in
        let (sent, rest, lost, (split, fine, cut), all) = publish_rows_lem wr xs log' acks in
        (
          x ∷ sent,
          rest,
          lost,
          (ap (λ ys. x ∷ ys) split, (taken, fine), cut),
          ap
                (λ o.
                  after_write o x.id (publish_rows wr xs (written wr (message_of x) log))
                    (written wr (message_of x) log))
                taken
              ∙ ap (λ l. after_write none x.id (publish_rows wr xs l) l) stored
              ∙ ap (λ r. after_write none x.id r log') all
              ∙ ap (λ l. (x.id ∷ ids_of sent, l ++ lost))
                  (append_assoc log (message_of x ∷ []) (messages sent)),
        )
    | inr (e, refused) ↦ (
      [],
      x ∷ xs,
      written wr (message_of x) [],
      (refl, tt, ((e, refused), refl)),
      ap
            (λ o.
              after_write o x.id (publish_rows wr xs (written wr (message_of x) log))
                (written wr (message_of x) log))
            refused
          ∙ ap (λ l. ([], l))
              (written_lem wr (message_of x) log
                ∙ ap (λ l. l ++ written wr (message_of x) []) (sym (append-nil log))),
    )
  ]

  -- What became of the update: committed, or lost with an error.
  abbrev pub IsStamped :
      List (OutboxRow Payload) → Broker Payload → (ℕ × Option Error) × Broker Payload → Type 0
  IsStamped sent b ((n, e), b') =
      ((e ≡ none) × (n ≡ length sent) × (b'.rows ≡ mark (ids_of sent) b.rows))
      ⊎ (((reason : Error) × (e ≡ some reason)) × (b'.rows ≡ b.rows))

  -- A round that read its rows.
  abbrev pub Sends :
      Round Payload
      → List (OutboxRow Payload)
      → Broker Payload
      → (ℕ × Option Error) × Broker Payload
      → Type 0
  Sends d xs b r =
      (sent rest : List (OutboxRow Payload)) × (lost : List (Message Payload)) × Splits d.writer xs
        sent rest lost
      × (r.1.log ≡ (b.log ++ messages sent) ++ lost)
      × IsStamped sent b r

  pub mark_nil : (xs : List (OutboxRow Payload)) → mark [] xs ≡ xs
  mark_nil [] = refl
  mark_nil (x ∷ xs) = ap (λ ys. x ∷ ys) (mark_nil xs)

  length-ids_of : (xs : List (OutboxRow Payload)) → length (ids_of xs) ≡ length xs
  length-ids_of [] = refl
  length-ids_of (x ∷ xs) = ap suc (length-ids_of xs)

  mark_published-IsStamped :
      (d : Round Payload) (sent : List (OutboxRow Payload)) (b : Broker Payload)
      (log : List (Message Payload))
      → IsStamped sent b (mark_published d (ids_of sent) (record b { log = log }))
  mark_published-IsStamped d [] b log = elim (Option-cases d.commit_error) [
    | inl fine ↦ inl (fine, refl, sym (mark_nil b.rows))
    | inr failed ↦ inr (failed, refl)
  ]
  mark_published-IsStamped d (x ∷ sent) b log = elim (Option-cases d.update_error) [
    | inr (e, failed) ↦ rw failed (inr ((e, refl), refl))
    | inl fine ↦ elim (Option-cases d.commit_error) [
      | inl done ↦ rw (fine, done) (inl (refl, ap suc (length-ids_of sent), refl))
      | inr (e, failed) ↦ rw (fine, failed) (inr ((e, refl), refl))
    ]
  ]

  mark_published-log :
      (d : Round Payload) (ids : List ℕ) (b : Broker Payload)
      → (mark_published d ids b).1.log ≡ b.log
  mark_published-log d [] b = refl
  mark_published-log d (i ∷ ids) b = elim (Option-cases d.update_error) [
    | inr (e, failed) ↦ rw failed refl
    | inl fine ↦ elim (Option-cases d.commit_error) [
      | inl done ↦ rw (fine, done) refl
      | inr (e, failed) ↦ rw (fine, failed) refl
    ]
  ]

  publish_pending-Sends :
      (d : Round Payload) (xs : List (OutboxRow Payload)) (b : Broker Payload)
      → IsAcknowledged d.writer
      → Sends d xs b (publish_pending d xs b)
  publish_pending-Sends d [] b acks = (
    [],
    [],
    [],
    (refl, tt, refl),
    sym (append-nil (b.log ++ []) ∙ append-nil b.log),
    inl (refl, refl, sym (mark_nil b.rows)),
  )
  publish_pending-Sends d (x ∷ xs) b acks =
      let (sent, rest, lost, split, all) = publish_rows_lem d.writer (x ∷ xs) b.log acks in
      let log' = (b.log ++ messages sent) ++ lost in
      subst (λ p. Sends d (x ∷ xs) b (mark_published d p.0 (record b { log = p.1 }))) (sym all)
        (
          sent,
          rest,
          lost,
          split,
          mark_published-log d (ids_of sent) (record b { log = log' }),
          mark_published-IsStamped d sent b log',
        )

  -- The round fails before it has its rows: the transaction does not begin, or the query reports an
  -- error.
  abbrev pub HasNoRows : Round Payload → Error → Type 0
  HasNoRows d e = (d.begin_error ≡ some e) ⊎ ((d.begin_error ≡ none) × (d.select_error ≡ some e))

  pub publish_batch-Sends :
      (d : Round Payload) (batch : ℕ) (b : Broker Payload)
      → IsAcknowledged d.writer
      → ((e : Error) × HasNoRows d e × (publish_batch d batch b ≡ ((0, some e), b)))
        ⊎ Sends d (pending d batch b) b (publish_batch d batch b)
  unfolding publish_batch
  publish_batch-Sends d batch b acks = elim (Option-cases d.begin_error) [
    | inr (e, failed) ↦ inl (e, inl failed, rw failed refl)
    | inl begun ↦ elim (Option-cases d.select_error) [
      | inr (e, failed) ↦ inl (e, inr (begun, failed), rw (begun, failed) refl)
      | inl read ↦ rw (begun, read) (inr (publish_pending-Sends d (pending d batch b) b acks))
    ]
  ]
