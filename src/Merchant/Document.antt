-- ===== src/Merchant/Document.antt =====
-- internal/domain/merchant/document.go: the CNPJ, with digits or letters, as a list of bytes. The code
-- walks code points: it rejects every text that is not ASCII, and so does this walk over bytes.
-- `upper` is `strings.ToUpper`.
pub mod Canonical
use mathlib.Core.List.{reverse}
use adquirente.Base.{
  ℕ, zero, suc, ◌+◌, ◌-◌, ◌*◌, ◌%◌, Bool, true, false, not, ◌&&◌, ◌||◌, Option, none, some, List,
  [], ◌∷◌, ◌++◌, length, get_elem?, ◌==◌, ltb, leb, if◌then◌else◌,
}
use adquirente.Base.Texts.{Text, codes, is_digit}
use adquirente.Shared.Error.{Error, Result, ok, err, invalid_document}

abbrev pub is_separator : ℕ → Bool
is_separator c = c == b'.' || c == b'/' || c == b'-' || c == b' '

-- The replacer.
abbrev pub without_separators : Text → Text
without_separators [] = []
without_separators (c ∷ t) =
    if is_separator c then without_separators t else c ∷ without_separators t

abbrev pub is_capital : ℕ → Bool
is_capital c = leb b'A' c && leb c b'Z'

-- The loop over the characters, from position i on.
abbrev pub is_allowed : ℕ → Text → Bool
is_allowed i [] = true
is_allowed i (c ∷ t) =
    if leb 12 i && not (is_digit c)
    then false
    else if not (is_digit c) && not (is_capital c)
    then false
    else is_allowed (suc i) t

-- `strings.Count` of one character.
abbrev pub count_of : ℕ → Text → ℕ
count_of c [] = 0
count_of c (d ∷ t) = if d == c then suc (count_of c t) else count_of c t

abbrev pub is_uniform : Text → Bool
is_uniform [] = false
is_uniform (c ∷ t) = count_of c (c ∷ t) == 14

-- The loop of `checkDigit`, from the last character on.
abbrev pub weighted_sum : ℕ → ℕ → Text → ℕ
weighted_sum weight sum [] = sum
weighted_sum weight sum (c ∷ t) =
    weighted_sum (if ltb 9 (suc weight) then 2 else suc weight) (sum + (c - b'0') * weight) t

unfoldable pub check_digit : Text → ℕ
check_digit base =
    let rest = weighted_sum 2 0 (reverse base) % 11 in if ltb rest 2 then 0 else 11 - rest

-- `clean[:n]`
abbrev pub first_bytes : ℕ → Text → Text
first_bytes zero t = []
first_bytes (suc n) [] = []
first_bytes (suc n) (c ∷ t) = c ∷ first_bytes n t

-- `int(clean[i] - '0')`, at a position that there is.
abbrev pub digit_at : Option ℕ → ℕ
digit_at none = 0
digit_at (some c) = c - b'0'

abbrev pub is_checked : Text → Bool
is_checked t =
    check_digit (first_bytes 12 t) == digit_at (get_elem? t 12)
    && check_digit (first_bytes 13 t) == digit_at (get_elem? t 13)

-- From the cleaned text on.
unfoldable pub judged : Text → Result Text
judged clean =
    if not (length clean == 14)
    then err invalid_document
    else if not (is_allowed 0 clean)
    then err invalid_document
    else if is_uniform clean
    then err invalid_document
    else if not (is_checked clean)
    then err invalid_document
    else ok clean

unfoldable pub new_document : (Text → Text) → Text → Result Text
new_document upper raw = judged (upper (without_separators raw))

-- `s[8:12]` and `s[12:]`
abbrev pub without_first : ℕ → Text → Text
without_first zero t = t
without_first (suc n) [] = []
without_first (suc n) (c ∷ t) = without_first n t

-- `Masked`
unfoldable pub masked : Text → Text
masked d =
    if not (length d == 14)
    then codes "**************"
    else codes "**.***.***/" ++ first_bytes 4 (without_first 8 d) ++ codes "-" ++ without_first 12 d
