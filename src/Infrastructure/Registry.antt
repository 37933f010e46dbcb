-- ===== src/Infrastructure/Registry.antt =====
-- internal/infrastructure/registry/fake.go: the registry in memory. Its mutex makes each method one
-- step. The file of liens is read by a parameter.
pub mod Liens
use adquirente.Base.{
  Bool, ◌&&◌, String, str_eq, ◌==◌, Option, none, some, List, [], ◌∷◌, ◌++◌, if◌then◌else◌,
}
use adquirente.Base.Texts.{Text}
use adquirente.Base.Assoc.{insert, string_eq}
use adquirente.Shared.Error.{Result, ok, err, external, ◌>>=◌}
use adquirente.Shared.Money.{Money}
use adquirente.Shared.Time.{Time, date_only}
use adquirente.Merchant.Accounts.{BankAccount, checking, new_bank_account}
use adquirente.Receivable.{Lien}
use adquirente.Receivable.Units.{ReceivableUnit}

-- `owners` maps a receivable to its owner.
pub record Fake : Type 0 where
  pub liens : List Lien
  pub units : List ReceivableUnit
  pub owners : List (String × String)

-- A row of the file.
pub record LienRow : Type 0 where
  pub merchant_id : String
  pub due_date : String
  pub amount : Money
  pub creditor_name : Text
  pub bank_code : Text
  pub branch : Text
  pub number : Text

abbrev pub parsed : Option Time → Result Time
parsed none = err (external "invalid date")
parsed (some t) = ok t

-- The body of the loop of `NewFake`; `parse` is `time.Parse`.
abbrev pub lien_of : (String → Option Time) → LienRow → Result Lien
lien_of parse r = parsed (parse r.due_date) >>= λ due.
    new_bank_account r.bank_code r.branch r.number checking >>= λ acc. ok (record {
      merchant_id = r.merchant_id;
      due_date = date_only due;
      amount = r.amount;
      creditor_name = r.creditor_name;
      creditor = acc;
    })

unfoldable pub load : (String → Option Time) → List LienRow → Result (List Lien)
load parse [] = ok []
load parse (r ∷ rs) = lien_of parse r >>= λ l. load parse rs >>= λ ls. ok (l ∷ ls)

-- `NewFake`
abbrev pub new_fake : (String → Option Time) → List LienRow → Result Fake
new_fake parse rows = load parse rows >>= λ ls. ok (record { liens = ls; units = []; owners = [] })

-- `Register`
abbrev pub register : List ReceivableUnit → Fake → Fake
register us f = record f { units = f.units ++ us }

-- `CheckLiens`
abbrev pub is_on : String → Time → Lien → Bool
is_on merchant_id due_date l = str_eq l.merchant_id merchant_id && l.due_date == date_only due_date

abbrev pub liens_on : String → Time → List Lien → List Lien
liens_on merchant_id due_date [] = []
liens_on merchant_id due_date (l ∷ ls) =
    if is_on merchant_id due_date l
    then l ∷ liens_on merchant_id due_date ls
    else liens_on merchant_id due_date ls

abbrev pub check_liens : Fake → String → Time → Result (List Lien)
check_liens f merchant_id due_date = ok (liens_on merchant_id due_date f.liens)

-- The loop of `TransferOwnership`
unfoldable pub transfer : String → List String → List (String × String) → List (String × String)
transfer new_owner [] owners = owners
transfer new_owner (id ∷ ids) owners = transfer new_owner ids (insert id new_owner owners)

abbrev pub transfer_ownership : List String → String → Fake → Fake
transfer_ownership ids new_owner f = record f { owners = transfer new_owner ids f.owners }
