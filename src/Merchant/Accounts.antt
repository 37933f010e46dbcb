-- ===== src/Merchant/Accounts.antt =====
-- internal/domain/merchant/bank_account.go
use adquirente.Base.{Bool, not, ◌||◌, String, str_eq, length, ◌==◌, if◌then◌else◌}
use adquirente.Base.Texts.{Text, is_empty}
use adquirente.Shared.Error.{Result, ok, err, invalid_bank_account}

-- `kind` is one of the three constants below in a value that the constructor makes.
pub record BankAccount : Type 0 where
  pub bank_code : Text
  pub branch : Text
  pub number : Text
  pub kind : String

abbrev pub checking : String
checking = "CHECKING"

abbrev pub savings : String
savings = "SAVINGS"

abbrev pub payment : String
payment = "PAYMENT"

abbrev pub is_account_kind : String → Bool
is_account_kind kind = str_eq kind checking || str_eq kind savings || str_eq kind payment

unfoldable pub new_bank_account : Text → Text → Text → String → Result BankAccount
new_bank_account bank_code branch number kind =
    if not (length bank_code == 3) || is_empty branch || is_empty number
    then err invalid_bank_account
    else if is_account_kind kind
    then ok (record { bank_code = bank_code; branch = branch; number = number; kind = kind })
    else err invalid_bank_account

abbrev pub is_zero_account : BankAccount → Bool
is_zero_account b = is_empty b.bank_code
