-- ===== src/Application/Notification.antt =====
-- internal/application/notification/notify.go: the webhook of an event. The decoding of JSON, the
-- HMAC and the HTTP client are parameters.
pub mod Posts
pub mod Retries
use adquirente.Base.{Bool, String, str_eq, Option, none, some, List, [], ◌∷◌, if◌then◌else◌}
use adquirente.Base.Texts.{Text, is_empty, joined}
use adquirente.Shared.Error.{Error, Result, ok, err, permanent, external, not_found}
use adquirente.Shared.Sentinels.{is_error}
use adquirente.Merchant.{Merchant}
use adquirente.Store.{World, Action, Call, webhook_posted, raise, pure, lift, call, ◌>>=◌}
use adquirente.Store.Shops.{find_merchant}

pub record Envelope : Type 0 where
  pub event_id : String
  pub merchant_id : String

-- `mac` is the HMAC of the secret in hexadecimal, `mac_equal` is `hmac.Equal`, and `send` is `Sender`.
pub record Notifier (Payload : Type 0) : Type 0 where
  pub envelope_of : Payload → Option Envelope
  pub mac : Payload → String
  pub mac_equal : String → String → Bool
  pub send : Text → Payload → List (String × String) → Result (Unit {0})

module _ {Payload : Type 0} (n : Notifier Payload) where
  -- `Sign`
  abbrev pub sign : Payload → String
  sign body = n.mac body

  -- `Verify`
  unfoldable pub verify : Payload → String → Bool
  verify body signature = n.mac_equal (sign body) signature

  abbrev pub headers_of : Envelope → String → Payload → List (String × String)
  headers_of env event_type payload =
      ("Content-Type", "application/json")
      ∷ ("X-Event-Id", env.event_id)
      ∷ ("X-Event-Type", event_type)
      ∷ ("X-Signature", joined "sha256=" (sign payload))
      ∷ []

  -- The merchant is there: nothing to do without a URL.
  abbrev pub post : Envelope → String → Payload → Merchant → Action (Unit {0})
  post env event_type payload m =
      if is_empty m.webhook_url
      then pure tt
      else (call (webhook_posted m.webhook_url (headers_of env event_type payload)) >>= λ _.
          lift (n.send m.webhook_url payload (headers_of env event_type payload)))

  abbrev pub with_merchant :
      Envelope → String → Payload → Result Merchant × World → Result (Unit {0}) × World
  with_merchant env event_type payload (ok m, w) = post env event_type payload m w
  with_merchant env event_type payload (err e, w) =
      (err (if is_error e not_found then permanent e else e), w)

  abbrev pub with_envelope : String → Payload → Option Envelope → Action (Unit {0})
  with_envelope event_type payload none w =
      (err (permanent (external "event without merchant_id")), w)
  with_envelope event_type payload (some env) w =
      if str_eq env.merchant_id ""
      then (err (permanent (external "event without merchant_id")), w)
      else with_merchant env event_type payload (find_merchant env.merchant_id w)

  -- `Notifier.Handle`
  unfoldable pub notify : String → Payload → Action (Unit {0})
  notify event_type payload = with_envelope event_type payload (n.envelope_of payload)
