-- ===== src/Application/Merchants.antt =====
-- internal/application/merchant: onboard.go and review.go. `ToUpper` and `url.Parse` are parameters.
pub mod Enrollment
pub mod Effect
use adquirente.Base.{Bool, String, Option, none, some}
use adquirente.Base.Texts.{Text}
use adquirente.Shared.Error.{Error, Outcome}
use adquirente.Shared.Time.{Time}
use adquirente.Merchant.{Merchant, Url, approve, block, set_webhook, enable_auto_anticipation}
use adquirente.Store.{World, Action, pure, lift, applied, ◌>>=◌}
use adquirente.Store.Shops.{create_merchant, find_merchant, update_merchant}
use adquirente.Application.Merchants.Enrollment.{Setting, OnboardCommand, enrolled}

abbrev pub stored : Merchant → Action Merchant
stored m = create_merchant m >>= λ _. pure m

unfoldable pub onboard : Setting → OnboardCommand → Action Merchant
onboard s cmd = lift (enrolled s cmd) >>= stored

abbrev pub updated : Time → Merchant → Action Merchant
updated stamp m = update_merchant stamp m >>= λ _. pure m

-- `Review.change`. `stamp` is the time at which the row is written.
unfoldable pub change : Time → String → (Merchant → Outcome Merchant) → Action Merchant
change stamp id apply = find_merchant id >>= λ m. applied (apply m) >>= updated stamp

abbrev pub approve_merchant : Time → Time → String → Action Merchant
approve_merchant stamp now id = change stamp id (approve now)

abbrev pub block_merchant : Time → Time → String → Action Merchant
block_merchant stamp now id = change stamp id (block now)

abbrev pub set_anticipation : Option Bool → Time → Outcome Merchant → Outcome Merchant
set_anticipation on now (m, some e) = (m, some e)
set_anticipation none now (m, none) = (m, none)
set_anticipation (some on) now (m, none) = (enable_auto_anticipation on now m, none)

abbrev pub set_url : (Text → Option Url) → Option Text → Time → Merchant → Outcome Merchant
set_url parse none now m = (m, none)
set_url parse (some url) now m = set_webhook parse url now m

abbrev pub update_settings :
    (Text → Option Url) → Option Text → Option Bool → Time → Time → String → Action Merchant
update_settings parse url on stamp now id =
    change stamp id λ m. set_anticipation on now (set_url parse url now m)
