-- ===== src/Transaction/Card.antt =====
-- internal/domain/transaction/card.go. A card number is a list of bytes.
pub mod Luhn
pub mod Mask
use adquirente.Base.{
  ℕ, zero, suc, ◌+◌, ◌-◌, ◌*◌, ◌%◌, ◌<◌, Bool, true, false, not, ◌&&◌, ◌||◌, String, str_eq, Option,
  none, some, List, [], ◌∷◌, ◌++◌, length, replicate, ltb, ◌==◌, if◌then◌else◌,
}
use mathlib.Core.List.{reverse}
use adquirente.Base.Texts.{Text, codes, is_digit, has_prefix}
use adquirente.Shared.Error.{Result, ok, err, invalid_pan, invalid_token}

-- `bin` is the first six digits.
pub record CardInfo : Type 0 where
  pub token : String
  pub brand : String
  pub bin : Text
  pub last4 : Text

-- What a digit adds to the sum, when it is doubled and when not.
abbrev pub weigh : Bool → ℕ → ℕ
weigh double d = if double then (if ltb 9 (d * 2) then d * 2 - 9 else d * 2) else d

-- The loop of `Luhn` over the bytes from the last to the first; `none` is the early `return false`.
luhn_from : ℕ → Bool → Text → Option ℕ
luhn_from sum double [] = some sum
luhn_from sum double (c ∷ rest) =
    let more = luhn_from (sum + weigh double (c - b'0')) (not double) rest in
    if is_digit c then more else none

abbrev pub is_multiple_of_ten : Option ℕ → Bool
is_multiple_of_ten none = false
is_multiple_of_ten (some sum) = sum % 10 == 0

unfoldable pub luhn : Text → Bool
unfolding luhn_from
luhn pan =
    if ltb (length pan) 13 || ltb 19 (length pan)
    then false
    else is_multiple_of_ten (luhn_from 0 false (reverse pan))

-- `pan[0] == '5' && pan[1] >= '1' && pan[1] <= '5'` on a text of two bytes or more.
abbrev is_mastercard_50s : Text → Bool
is_mastercard_50s (c ∷ d ∷ rest) = c == b'5' && (not (ltb d b'1') && not (ltb b'5' d))
is_mastercard_50s _ = false

unfoldable pub brand_of : Text → String
brand_of pan =
    if has_prefix pan (codes "4")
    then "VISA"
    else if is_mastercard_50s pan || has_prefix pan (codes "2")
    then "MASTERCARD"
    else if has_prefix pan (codes "6362")
        || has_prefix pan (codes "5067")
        || has_prefix pan (codes "4576")
    then "ELO"
    else if has_prefix pan (codes "34") || has_prefix pan (codes "37")
    then "AMEX"
    else "UNKNOWN"

-- `s[:n]` and `s[n:]`
abbrev pub take : ℕ → Text → Text
take zero s = []
take (suc n) [] = []
take (suc n) (c ∷ s) = c ∷ take n s

abbrev pub drop : ℕ → Text → Text
drop zero s = s
drop (suc n) [] = []
drop (suc n) (c ∷ s) = drop n s

unfoldable pub card_info_from_pan : String → Text → Result CardInfo
card_info_from_pan token pan =
    if str_eq token ""
    then err invalid_token
    else if not (luhn pan)
    then err invalid_pan
    else ok (record {
      token = token;
      brand = brand_of pan;
      bin = take 6 pan;
      last4 = drop (length pan - 4) pan;
    })

unfoldable pub mask_pan : Text → Text
mask_pan pan =
    if ltb (length pan) 10
    then replicate (length pan) b'*'
    else take 6 pan ++ (replicate (length pan - 10) b'*' ++ drop (length pan - 4) pan)
