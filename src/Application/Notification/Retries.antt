-- ===== src/Application/Notification/Retries.antt =====
-- The consumer of the notifications: how often an event is posted.
use mathlib.Core.Path.{subst}
use adquirente.Base.{
  ℕ, ◌+◌, ◌≤◌, ◌≡◌, refl, sym, ap, ◌∙◌, inl, inr, String, true, List, [], ◌∷◌, ◌++◌, length,
  length-append, arith,
}
use adquirente.Shared.Error.{Result}
use adquirente.Store.{World, Action, Call}
use adquirente.Messaging.{Message}
use adquirente.Messaging.Consumer.{Consumer, event_type_of, process}
use adquirente.Messaging.Consumer.Attempts.{Tries, no_failure, one_failure}
use adquirente.Messaging.Consumer.Letters.{run, EndsAt, process-Ends}
use adquirente.Application.Notification.{Notifier, notify}
use adquirente.Application.Notification.Posts.{Notifies, notify-Notifies}

-- The tables are the same, and at most k requests left the system.
abbrev pub AsksAtMost : ℕ → World → World → Type 0
AsksAtMost k w w' = (w'.database ≡ w.database) × (length w'.calls ≤ length w.calls + k)

AsksAtMost-trans :
    (k l : ℕ) (u v w : World) → AsksAtMost k u v → AsksAtMost l v w → AsksAtMost (k + l) u w
AsksAtMost-trans k l u v w (same, few) (same', few') = (same' ∙ same, omega (arith, few, few'))

as_many : (cs ds : List Call) → ds ≡ cs → length ds ≤ length cs + 1
as_many cs ds e = let same = ap length e in omega (arith, same)

one_more : (cs ds : List Call) (c : Call) → ds ≡ cs ++ c ∷ [] → length ds ≤ length cs + 1
one_more cs ds c e = let longer = ap length e ∙ length-append cs (c ∷ []) in omega (arith, longer)

Notifies-once :
    {Payload : Type 0} (n : Notifier Payload) (event_type : String) (payload : Payload) (w : World)
    (r : Result (Unit {0}) × World)
    → Notifies n event_type payload w r
    → AsksAtMost 1 w r.1
Notifies-once n event_type payload w (r, w') (same, inl (quiet, why)) =
    (same, as_many w.calls w'.calls quiet)
Notifies-once n event_type payload w (r, w')
      (same, inr (env, m, decoded, row, inl (unwanted, done, quiet))) =
    (same, as_many w.calls w'.calls quiet)
Notifies-once n event_type payload w (r, w')
      (same, inr (env, m, decoded, row, inr (wanted, (headers, signed, answer, posted)))) =
    (same, one_more w.calls w'.calls _ posted)

Tries-few :
    {m : Action (Unit {0})} {k : ℕ} {w v : World}
    → ((u : World) → AsksAtMost 1 u (m u).1)
    → Tries m k w v
    → AsksAtMost k w v
Tries-few once (no_failure w) = (refl, omega arith)
Tries-few {m} {w = w} {v = v} once (one_failure {n} {u = u} e ran soft tries) =
    let (same, few) =
      AsksAtMost-trans 1 n w u v (subst (λ r. AsksAtMost 1 w r.1) ran (once w))
        (Tries-few once tries) in
    (same, omega (arith, few))

module _ {Payload : Type 0} (c : Consumer Payload) (n : Notifier Payload) where
  last_once :
      (msg : Message Payload) (k : ℕ) (v : World) (letters : List (Message Payload))
      (r : World × List (Message Payload))
      → ((u : World) → AsksAtMost 1 u (run c msg u).1)
      → EndsAt c msg k v letters r
      → AsksAtMost 1 v r.0
  last_once msg k v letters (w', ls) once (inl (done, rest)) =
      subst (λ r. AsksAtMost 1 v r.1) done (once v)
  last_once msg k v letters (w', ls) once (inr (e, failed, rest)) =
      subst (λ r. AsksAtMost 1 v r.1) failed (once v)

  -- If the signature comparison accepts equal texts, a consumer whose handler is the notification
  -- makes five requests to the outside at most for an event, however the merchant's server
  -- answers, and changes no table.
  pub process-AsksAtMost :
      ((s : String) → n.mac_equal s s ≡ true)
      → c.handler ≡ notify n
      → (msg : Message Payload) (w : World) (letters : List (Message Payload))
      → AsksAtMost 5 w (process c msg (w, letters)).0
  process-AsksAtMost same is_notifier msg w letters =
      let once : (u : World) → AsksAtMost 1 u (run c msg u).1 = λ u.
        subst (λ h. AsksAtMost 1 u (h (event_type_of msg) msg.value u).1) (sym is_notifier)
          (Notifies-once n (event_type_of msg) msg.value u
            (notify n (event_type_of msg) msg.value u)
            (notify-Notifies n (event_type_of msg) msg.value same u)) in
      let (k, few, v, tries, ends) = process-Ends c msg w letters in
      let (kept, asked) =
        AsksAtMost-trans k 1 w v (process c msg (w, letters)).0 (Tries-few once tries)
          (last_once msg k v letters (process c msg (w, letters)) once ends) in
      (kept, omega (arith, few, asked))
