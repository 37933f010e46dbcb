-- ===== src/Application/History/Reach.antt =====
-- Everything that can happen to the database: the use cases, one after the other, in any order, with
-- any script of faults.
use mathlib.Core.Path.{subst}
use adquirente.Base.{ℕ, ◌≡◌, refl, sym, true, String, Option, List, Bool}
use adquirente.Base.Texts.{Text}
use adquirente.Shared.Error.{Error}
use adquirente.Shared.Money.{Money}
use adquirente.Shared.Time.{Time}
use adquirente.Merchant.{Url}
use adquirente.Ledger.{balanced}
use adquirente.Ledger.Balance.{balanced-append}
use adquirente.Store.{World}
use adquirente.Application.Lifecycle.{capture_sale, cancel_sale}
use adquirente.Application.Authorization as Authorization
use adquirente.Application.Authorization.Checks.{Setting, AuthorizeCommand}
use adquirente.Application.Disputes as Disputes
use adquirente.Application.Disputes.{Draws}
use adquirente.Application.Anticipate.{Anticipator, request}
use adquirente.Application.Merchants.{onboard, approve_merchant, block_merchant, update_settings}
use adquirente.Application.Merchants.Enrollment as Enrollment
use adquirente.Application.Merchants.Enrollment.{OnboardCommand}
use adquirente.Application.Scheduling.{Scheduler, handle}
use adquirente.Application.SettleDue as SettleDue
use adquirente.Application.SettleDue.{Settler}
use adquirente.Application.History.{Grows, Grows-refl, Grows-trans}
use adquirente.Application.History.UseCases.{
  change-Growing, authorize-Growing, dispute-Growing, request-Growing, onboard-Growing,
  review-Growing, handle-Growing, settle-Growing,
}

-- One run of a use case; `faults_change` sets the errors that the database will report.
pub data Step (Payload : Type 0) : World → World → Type 0 where
  authorized :
      (s : Setting) (cmd : AuthorizeCommand) (w : World)
      → Step Payload w (Authorization.execute s cmd w).1
  captured :
      (event_id : String) (now : Time) (merchant_id id : String) (w : World)
      → Step Payload w (capture_sale event_id now merchant_id id w).1
  canceled :
      (event_id : String) (now : Time) (merchant_id id : String) (w : World)
      → Step Payload w (cancel_sale event_id now merchant_id id w).1
  delivered :
      (s : Scheduler Payload) (event_type : String) (payload : Payload) (w : World)
      → Step Payload w (handle s event_type payload w).1
  settled :
      (s : Settler) (fuel : ℕ) (now : Time) (w : World)
      → Step Payload w (SettleDue.execute s fuel now w).1
  anticipated :
      (s : Anticipator) (merchant_id : String) (ids : List String) (w : World)
      → Step Payload w (request s merchant_id ids w).1
  disputed :
      (d : Draws) (merchant_id transaction_id reason_code : String) (amount : Money) (now : Time)
      (w : World)
      → Step Payload w (Disputes.execute d merchant_id transaction_id reason_code amount now w).1
  onboarded :
      (s : Enrollment.Setting) (cmd : OnboardCommand) (w : World)
      → Step Payload w (onboard s cmd w).1
  approved :
      (stamp now : Time) (id : String) (w : World)
      → Step Payload w (approve_merchant stamp now id w).1
  blocked :
      (stamp now : Time) (id : String) (w : World)
      → Step Payload w (block_merchant stamp now id w).1
  reconfigured :
      (parse : Text → Option Url) (url : Option Text) (on : Option Bool) (stamp now : Time)
      (id : String) (w : World)
      → Step Payload w (update_settings parse url on stamp now id w).1
  faults_change :
      (faults : List (Option Error)) (w : World) → Step Payload w (record w { faults = faults })

-- A run of the system.
pub data Reaches (Payload : Type 0) : World → World → Type 0 where
  begins : (w : World) → Reaches Payload w w
  later : {w v u : World} → Reaches Payload w v → Step Payload v u → Reaches Payload w u

Step-Grows : {Payload : Type 0} {w v : World} → Step Payload w v → Grows w.database v.database
Step-Grows (authorized s cmd w) = authorize-Growing s cmd w
Step-Grows (captured event_id now merchant_id id w) = change-Growing merchant_id id _ w
Step-Grows (canceled event_id now merchant_id id w) = change-Growing merchant_id id _ w
Step-Grows (delivered s event_type payload w) = handle-Growing s event_type payload w
Step-Grows (settled s fuel now w) = settle-Growing s fuel now w
Step-Grows (anticipated s merchant_id ids w) = request-Growing s merchant_id ids w
Step-Grows (disputed d merchant_id transaction_id reason_code amount now w) =
    dispute-Growing d merchant_id transaction_id reason_code amount now w
Step-Grows (onboarded s cmd w) = onboard-Growing s cmd w
Step-Grows (approved stamp now id w) = review-Growing stamp id _ w
Step-Grows (blocked stamp now id w) = review-Growing stamp id _ w
Step-Grows (reconfigured parse url on stamp now id w) = review-Growing stamp id _ w
Step-Grows (faults_change faults w) = Grows-refl w.database w.database refl

pub Reaches-Grows :
    {Payload : Type 0} {w v : World} → Reaches Payload w v → Grows w.database v.database
Reaches-Grows (begins w) = Grows-refl w.database w.database refl
Reaches-Grows (later {w} {v} {u} run step) =
    Grows-trans w.database v.database u.database (Reaches-Grows run) (Step-Grows step)

-- However the use cases follow each other, and whatever the database, the bank, the issuer and the
-- registry answer: a ledger that balances keeps balancing, and what it, the outbox and the list of
-- processed events hold stays, in its order, at their beginning.
pub Reaches-balanced :
    {Payload : Type 0} {w v : World}
    → Reaches Payload w v
    → balanced w.database.ledger_entries ≡ true
    → (balanced v.database.ledger_entries ≡ true) × Grows w.database v.database
Reaches-balanced {w = w} run fits =
    let (es, evs, ps, fits', ledger, outbox, marks) = Reaches-Grows run in
    (
      subst (λ xs. balanced xs ≡ true) (sym ledger)
          (balanced-append w.database.ledger_entries es fits fits'),
      (es, evs, ps, fits', ledger, outbox, marks),
    )
