-- ===== src/Shared/Product.antt =====
-- internal/domain/shared/product.go
use adquirente.Base.{Bool, true, false, String, str_eq, if◌then◌else◌}
use adquirente.Shared.Error.{Result, ok, err, invalid_product}

pub data Product : Type 0 where
  debit credit : Product

-- `p == q` on products.
abbrev pub product_eq : Product → Product → Bool
product_eq debit debit = true
product_eq debit credit = false
product_eq credit debit = false
product_eq credit credit = true

abbrev pub product_name : Product → String
product_name debit = "DEBIT"
product_name credit = "CREDIT"

unfoldable pub parse_product : String → Result Product
parse_product s =
    if str_eq s (product_name debit)
    then ok debit
    else if str_eq s (product_name credit)
    then ok credit
    else err invalid_product
