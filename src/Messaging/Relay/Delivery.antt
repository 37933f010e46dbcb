-- ===== src/Messaging/Relay/Delivery.antt =====
-- The relay over time: what is marked as published was sent.
use mathlib.Core.Path.{subst}
use mathlib.Core.List.{Memᴰ, append-nil, append_assoc}
use mathlib.Core.List.Memᴰ as Memᴰ
use mathlib.Core.List.Memᴰ.{head, tail}
use adquirente.Base.{
  ℕ, ◌≡◌, refl, sym, ap, ◌∙◌, ◌⊎◌, inl, inr, Bool-cases, true, false, ◌||◌, ◌==◌, ==_iff, ltb,
  Option, List, [], ◌∷◌, ◌++◌,
}
use adquirente.Shared.Error.{Error}
use adquirente.Messaging.{OutboxRow, Message, IsAcknowledged}
use adquirente.Messaging.Relay.{
  limited, message_of, mark, marked, any_is, add_row, Broker, Round, pending, where_free,
  publish_batch,
}
use adquirente.Messaging.Relay.Order.{
  Ascending, same_key, limited-mem, where_free-mem, mark-Ascending, add_row-Ascending,
}
use adquirente.Messaging.Relay.Sending.{ids_of, messages, Sends, publish_batch-Sends}

module _ {Payload : Type 0} where
  -- A transaction that commits a new event, or a round of a relay.
  pub data Step : Broker Payload → Broker Payload → Type 0 where
    row_added :
        (x : OutboxRow Payload) (b : Broker Payload)
        → x.is_published ≡ false
        → Step b (record b { rows = add_row x b.rows })
    round_ran :
        (d : Round Payload) (batch : ℕ) (b : Broker Payload)
        → IsAcknowledged d.writer
        → Step b (publish_batch d batch b).1

  pub data Reaches : Broker Payload → Broker Payload → Type 0 where
    begins : (b : Broker Payload) → Reaches b b
    later : {a b c : Broker Payload} → Reaches a b → Step b c → Reaches a c

  abbrev pub Delivered : List (OutboxRow Payload) → List (Message Payload) → Type 0
  Delivered rows log =
      (x : OutboxRow Payload) → Memᴰ x rows → x.is_published ≡ true → Memᴰ (message_of x) log

  -- The keys ascend, and the message of every published row is in the topics.
  abbrev pub IsSound : Broker Payload → Type 0
  IsSound b = Ascending b.rows × Delivered b.rows b.log

  add_row-mem :
      (x : OutboxRow Payload) {y : OutboxRow Payload} (xs : List (OutboxRow Payload))
      → Memᴰ y (add_row x xs)
      → (y ≡ x) ⊎ Memᴰ y xs
  add_row-mem x [] (head e) = inl e
  add_row-mem x [] (tail m) = elim m [ ]
  add_row-mem x {y} (z ∷ zs) m = elim (Bool-cases (ltb x.id z.id)) [
    | inl before ↦ Memᴰ.cases_cons (rw before at m)
    | inr other ↦ elim (Bool-cases (x.id == z.id)) [
      | inl taken ↦ inr (rw (other, taken) at m)
      | inr after ↦ elim (Memᴰ.cases_cons (rw (other, after) at m)) [
        | inl e ↦ inr (head e)
        | inr n ↦ elim (add_row-mem x zs n) [ inl e ↦ inl e | inr k ↦ inr (tail k) ]
      ]
    ]
  ]

  -- A key of the list is the key of one of its rows.
  any_is-mem :
      (k : ℕ) (xs : List (OutboxRow Payload))
      → any_is k (ids_of xs) ≡ true
      → (x : OutboxRow Payload) × Memᴰ x xs × (x.id ≡ k)
  any_is-mem k [] h = absurd cc
  any_is-mem k (x ∷ xs) h = elim (Bool-cases (x.id == k)) [
    | inl same ↦ (x, head refl, (==_iff x.id k).0 same)
    | inr other ↦ let (y, m, e) = any_is-mem k xs (rw other at h) in (y, tail m, e)
  ]

  mark-Delivered :
      (sent rows : List (OutboxRow Payload)) (log : List (Message Payload))
      → Ascending rows
      → ((x : OutboxRow Payload) → Memᴰ x sent → Memᴰ x rows × Memᴰ (message_of x) log)
      → Delivered rows log
      → Delivered (mark (ids_of sent) rows) log
  mark-Delivered sent rows log up reached old y m published =
      let (x, n, e) = Memᴰ.of_map (marked (ids_of sent)) rows m in
      let was : Memᴰ (message_of x) log = elim (Bool-cases (any_is x.id (ids_of sent))) [
        | inl now ↦
            let (z, k, same) = any_is-mem x.id sent now in
            let (in_rows, in_log) = reached z k in
            subst (λ v. Memᴰ (message_of v) log) (same_key rows up in_rows n same) in_log
        | inr before ↦
            old x n
              (ap (λ b. b || x.is_published) (sym before) ∙ ap (λ v. v.is_published) e ∙ published)
      ] in
      subst (λ z. Memᴰ (message_of z) log) e was

  -- The rows of a round that went out are rows of the table, and their messages are in the topics.
  sent-reached :
      (d : Round Payload) (batch : ℕ) (b : Broker Payload) (sent rest : List (OutboxRow Payload))
      (lost : List (Message Payload))
      → pending d batch b ≡ sent ++ rest
      → (x : OutboxRow Payload) → Memᴰ x sent
      → Memᴰ x b.rows × Memᴰ (message_of x) ((b.log ++ messages sent) ++ lost)
  sent-reached d batch b sent rest lost split x m = (
    where_free-mem d.is_locked b.rows (
        limited-mem batch (where_free d.is_locked b.rows) (
          limited-mem d.delivered (limited batch (where_free d.is_locked b.rows))
            (subst (λ xs. Memᴰ x xs) (sym split) (Memᴰ.append_left rest m)))),
    Memᴰ.append_left lost (Memᴰ.append_right b.log (Memᴰ.map message_of m)),
  )

  Sends-IsSound :
      (d : Round Payload) (batch : ℕ) (b : Broker Payload) (r : (ℕ × Option Error) × Broker Payload)
      → Sends d (pending d batch b) b r
      → IsSound b
      → IsSound r.1 × ((more : List (Message Payload)) × (r.1.log ≡ b.log ++ more))
  Sends-IsSound d batch b ((n, e), b') (sent, rest, lost, (split, fine, cut), log, stamped)
        (up, old) =
      let reached = sent-reached d batch b sent rest lost split in
      let kept : Delivered b.rows ((b.log ++ messages sent) ++ lost) =
        λ x m h. Memᴰ.append_left lost (Memᴰ.append_left (messages sent) (old x m h)) in
      let sound : IsSound (record { rows = b'.rows; log = (b.log ++ messages sent) ++ lost }) =
        elim stamped [
          | inl (ok, count, rows) ↦
              subst (λ xs. Ascending xs × Delivered xs ((b.log ++ messages sent) ++ lost))
                (sym rows)
                (
                  mark-Ascending (ids_of sent) b.rows up,
                  mark-Delivered sent b.rows ((b.log ++ messages sent) ++ lost) up reached kept,
                )
          | inr (failed, rows) ↦
              subst (λ xs. Ascending xs × Delivered xs ((b.log ++ messages sent) ++ lost))
                (sym rows) (up, kept)
        ] in
      (
        subst (λ l. Ascending b'.rows × Delivered b'.rows l) (sym log) sound,
        (messages sent ++ lost, log ∙ append_assoc b.log (messages sent) lost),
      )

  Step-IsSound :
      {b b' : Broker Payload}
      → Step b b'
      → IsSound b
      → IsSound b' × ((more : List (Message Payload)) × (b'.log ≡ b.log ++ more))
  Step-IsSound (row_added x b fresh) (up, old) = (
    (
      add_row-Ascending x b.rows up,
      λ y m published. elim (add_row-mem x b.rows m) [
        | inl e ↦ absurd (cc (ap (λ v. v.is_published) e, fresh, published))
        | inr n ↦ old y n published
      ],
    ),
    ([], sym (append-nil b.log)),
  )
  Step-IsSound (round_ran d batch b acks) sound = elim (publish_batch-Sends d batch b acks) [
    | inl (e, why, failed) ↦
        subst (λ r. IsSound r.1 × ((more : List (Message Payload)) × (r.1.log ≡ b.log ++ more)))
          (sym failed) (sound, ([], sym (append-nil b.log)))
    | inr sends ↦ Sends-IsSound d batch b (publish_batch d batch b) sends sound
  ]

  -- Let the keys ascend and the message of every published row be in the topics. Whatever events
  -- are committed, whatever relays run, and whatever fails on the way, both stay so while
  -- acknowledged messages are stored, and the topics only grow: no event that is marked as
  -- published is lost.
  pub Reaches-IsSound :
      {b b' : Broker Payload}
      → Reaches b b'
      → IsSound b
      → IsSound b' × ((more : List (Message Payload)) × (b'.log ≡ b.log ++ more))
  Reaches-IsSound (begins b) sound = (sound, ([], sym (append-nil b.log)))
  Reaches-IsSound (later {a} {b} {c} run step) sound =
      let (there, (more, log)) = Reaches-IsSound run sound in
      let (sound', (more', log')) = Step-IsSound step there in
      (sound', (more ++ more', log' ∙ ap (λ l. l ++ more') log ∙ append_assoc a.log more more'))
