-- ===== src/Infrastructure/Bank.antt =====
-- internal/infrastructure/bank/file_gateway.go. Writing the file is a parameter.
use adquirente.Base.{Bool, false, ◌||◌, String, Option, none, some, List, [], ◌∷◌, if◌then◌else◌}
use adquirente.Base.Texts.{codes, has_suffix, joined}
use adquirente.Shared.Time.{Time}
use adquirente.Settlement.{Settlement, Order}
use adquirente.Application.SettleDue.{Answer, accepted, rejected}

-- The loop over the orders: an account that the bank refuses.
abbrev pub has_refused_account : List Order → Bool
has_refused_account [] = false
has_refused_account (o ∷ os) =
    has_suffix o.bank_account.number (codes "-0") || has_refused_account os

-- `compact` is `Format("20060102")`.
abbrev pub file_name : (Time → String) → Settlement → String
file_name compact s =
    joined "settlement-" (joined (compact s.date) (joined "-" (joined s.id ".json")))

abbrev pub when_written : Option String → String → Answer
when_written none name = accepted name
when_written (some why) name = rejected why

-- `FileGateway.Send`; `write` gives the text of the error that `os.WriteFile` reports, if any.
unfoldable pub send_file :
    (Time → String) → (String → Settlement → Option String) → Settlement → Answer
send_file compact write s =
    if has_refused_account s.orders
    then rejected "conta inválida"
    else when_written (write (file_name compact s) s) (file_name compact s)
