-- ===== src/Application/Notification/Posts.antt =====
-- What a notification posts, and how it fails.
use mathlib.Core.Path.{subst}
use adquirente.Base.{
  ◌≡◌, refl, sym, ap, ◌⊎◌, inl, inr, Bool-cases, true, false, String, str_eq, Option, Option-cases,
  none, some, List, [], ◌∷◌, ◌++◌, if◌then◌else◌,
}
use adquirente.Base.Texts.{is_empty, joined}
use adquirente.Base.Assoc.{lookup, string_eq}
use adquirente.Shared.Error.{Error, Result, ok, err, permanent, external, not_found}
use adquirente.Shared.Sentinels.{is_error}
use adquirente.Merchant.{Merchant}
use adquirente.Store.{World, answered, statement, webhook_posted}
use adquirente.Store.Tables.{selected}
use adquirente.Store.Failure.{query-IsReading}
use adquirente.Store.Shops.{find_merchant, find_merchant-ok, read_merchant}
use adquirente.Application.Notification.{
  Envelope, Notifier, sign, verify, headers_of, post, with_merchant, with_envelope, notify,
}

answered_quiet :
    {A : Type 0} (r : Result A) (w : World) (faults : List (Option Error))
    → (answered (selected w.database r) w faults).1.calls ≡ w.calls
answered_quiet (ok a) w [] = refl
answered_quiet (ok a) w (none ∷ faults) = refl
answered_quiet (ok a) w (some e ∷ faults) = refl
answered_quiet (err e) w [] = refl
answered_quiet (err e) w (none ∷ faults) = refl
answered_quiet (err e) w (some x ∷ faults) = refl

find_merchant_quiet :
    (id : String) (w : World)
    → ((find_merchant id w).1.database ≡ w.database) × ((find_merchant id w).1.calls ≡ w.calls)
unfolding find_merchant statement
find_merchant_quiet id w = (
  query-IsReading (λ db. read_merchant (lookup id db.merchants)) w,
  answered_quiet (read_merchant (lookup id w.database.merchants)) w w.faults,
)

module _ {Payload : Type 0} (n : Notifier Payload) (event_type : String) (payload : Payload) where
  abbrev no_address : Error
  no_address = permanent (external "event without merchant_id")

  -- The headers name the event and its type, and hold a signature of the payload that verifies.
  abbrev pub IsSigned : Envelope → List (String × String) → Type 0
  IsSigned env headers =
      (lookup "X-Event-Id" headers ≡ some env.event_id)
      × (lookup "X-Event-Type" headers ≡ some event_type)
      × ((signature : String) × (lookup "X-Signature" headers ≡ some (joined "sha256=" signature))
          × (verify n payload signature ≡ true))

  -- The merchant was found: it wants no webhook, or one was posted to its URL, with signed headers,
  -- and the result is the answer of the post.
  abbrev pub Addressed : Envelope → World → Merchant → Result (Unit {0}) × World → Type 0
  Addressed env w m (r, w') =
      ((is_empty m.webhook_url ≡ true) × (r ≡ ok tt) × (w'.calls ≡ w.calls))
      ⊎ ((is_empty m.webhook_url ≡ false)
          × ((headers : List (String × String)) × IsSigned env headers
              × (r ≡ n.send m.webhook_url payload headers)
              × (w'.calls ≡ w.calls ++ webhook_posted m.webhook_url headers ∷ [])))

  -- The event names no merchant.
  abbrev pub Unaddressed : Type 0
  Unaddressed =
      (n.envelope_of payload ≡ none)
      ⊎ ((env : Envelope) × (n.envelope_of payload ≡ some env) × (str_eq env.merchant_id "" ≡ true))

  -- The merchant was not read: for good when there is none.
  abbrev pub Unfound : World → Result (Unit {0}) → Type 0
  Unfound w r =
      (env : Envelope) × (e : Error) × (n.envelope_of payload ≡ some env)
      × ((find_merchant env.merchant_id w).0 ≡ err e)
      × (r ≡ err (if is_error e not_found then permanent e else e))

  abbrev pub Notifies : World → Result (Unit {0}) × World → Type 0
  Notifies w (r, w') =
      (w'.database ≡ w.database)
      × (((w'.calls ≡ w.calls) × ((Unaddressed × (r ≡ err no_address)) ⊎ Unfound w r))
          ⊎ ((env : Envelope) × (m : Merchant) × (n.envelope_of payload ≡ some env)
              × (read_merchant (lookup env.merchant_id w.database.merchants) ≡ ok m)
              × Addressed env w m (r, w')))

  post-Addressed :
      ((s : String) → n.mac_equal s s ≡ true)
      → (env : Envelope) (m : Merchant) (w v : World) → v.database ≡ w.database
      → v.calls ≡ w.calls
      → ((post n env event_type payload m v).1.database ≡ w.database)
        × Addressed env w m (post n env event_type payload m v)
  unfolding verify
  post-Addressed same env m w v tables quiet = elim (Bool-cases (is_empty m.webhook_url)) [
    | inl unwanted ↦ rw unwanted (tables, inl (refl, refl, quiet))
    | inr wanted ↦ rw wanted (
      tables,
      inr (
        refl,
        (
          headers_of n env event_type payload,
          (refl, refl, (sign n payload, refl, same (sign n payload))),
          refl,
          ap (λ cs. cs ++ webhook_posted m.webhook_url (headers_of n env event_type payload) ∷ [])
              quiet,
        ),
      ),
    )
  ]

  with_merchant-Notifies :
      ((s : String) → n.mac_equal s s ≡ true)
      → (env : Envelope) (w : World) (r : Result Merchant × World)
      → n.envelope_of payload ≡ some env
      → find_merchant env.merchant_id w ≡ r
      → (r.1.database ≡ w.database) × (r.1.calls ≡ w.calls)
      → Notifies w (with_merchant n env event_type payload r)
  with_merchant-Notifies same env w (ok m, v) decoded found (tables, quiet) =
      let (row, unchanged, rest) = find_merchant-ok env.merchant_id w found in
      let (kept, addressed) = post-Addressed same env m w v tables quiet in
      (kept, inr (env, m, decoded, row, addressed))
  with_merchant-Notifies same env w (err e, v) decoded found (tables, quiet) =
      (tables, inl (quiet, inr (env, e, decoded, ap (λ p. p.0) found, refl)))

  -- Let the signature comparison accept equal texts. A notification changes no table. An event
  -- without a merchant fails for good, and so does one whose merchant is not in the table;
  -- another error of the database is passed on; none of these posts anything. Otherwise a
  -- merchant with a URL gets one post, whose headers name the event and its type and hold, after
  -- `sha256=`, a signature of the payload that verifies, and the result is the answer to it; without a URL nothing is posted, and the notification succeeds.
  pub notify-Notifies :
      ((s : String) → n.mac_equal s s ≡ true)
      → (w : World) → Notifies w (notify n event_type payload w)
  unfolding notify
  notify-Notifies same w = elim (Option-cases (n.envelope_of payload)) [
    | inl none_found ↦
        subst (λ o. Notifies w (with_envelope n event_type payload o w)) (sym none_found)
          (refl, inl (refl, inl (inl none_found, refl)))
    | inr (env, decoded) ↦
        subst (λ o. Notifies w (with_envelope n event_type payload o w)) (sym decoded)
          (elim (Bool-cases (str_eq env.merchant_id "")) [
            | inl nobody ↦
                subst
                  (λ b. Notifies w (
                    if b
                    then (err no_address, w)
                    else with_merchant n env event_type payload (find_merchant env.merchant_id w)))
                  (sym nobody) (refl, inl (refl, inl (inr (env, decoded, nobody), refl)))
            | inr named ↦
                subst
                  (λ b. Notifies w (
                    if b
                    then (err no_address, w)
                    else with_merchant n env event_type payload (find_merchant env.merchant_id w)))
                  (sym named)
                  (with_merchant-Notifies same env w (find_merchant env.merchant_id w) decoded refl
                    (find_merchant_quiet env.merchant_id w))
          ])
  ]
