-- ===== src/Http/Guards.antt =====
-- internal/handler/http/middleware/auth.go, and the guards at the end of merchants.go.
use adquirente.Base.{
  ◌==◌, Bool, false, not, ◌&&◌, ◌||◌, String, str_eq, Option, none, some, List, [], ◌∷◌,
  if◌then◌else◌,
}
use adquirente.Base.Texts.{Text, is_empty, codes}
use adquirente.Store.{World}
use adquirente.Http.Replies.{Reply, problem}

-- `scopes` are the words of the claim `scope`.
pub record Principal : Type 0 where
  pub client_id : String
  pub merchant_id : String
  pub scopes : List String

-- `Principal.Has`
abbrev pub has_scope : List String → String → Bool
has_scope [] scope = false
has_scope (s ∷ ss) scope = str_eq s scope || has_scope ss scope

-- `Claims`
pub record Claims : Type 0 where
  pub subject : String
  pub merchant_id : String
  pub scope : Text

-- `TrimPrefix` of the header; none when it is empty or lacks the prefix.
abbrev pub without_prefix : Text → Text → Option Text
without_prefix [] t = some t
without_prefix (c ∷ cs) [] = none
without_prefix (c ∷ cs) (d ∷ ds) = if c == d then without_prefix cs ds else none

-- A handler that comes after the guards.
abbrev pub Guarded : Type 0
Guarded = Principal → World → Reply × World

-- `parse` is `jwt.ParseWithClaims` with its options: none for an error, or for a token that is not
-- valid. `fields` is `strings.Fields`.
abbrev pub with_claims : (Text → List String) → Option Claims → Guarded → World → Reply × World
with_claims fields none next w = (problem 401 "UNAUTHENTICATED" "token inválido", w)
with_claims fields (some cl) next w =
    next (record { client_id = cl.subject; merchant_id = cl.merchant_id; scopes = fields cl.scope })
      w

abbrev pub with_token :
    (Text → Option Claims) → (Text → List String) → Option Text → Guarded → World → Reply × World
with_token parse fields none next w = (problem 401 "UNAUTHENTICATED" "token ausente", w)
with_token parse fields (some raw) next w =
    if is_empty raw
    then (problem 401 "UNAUTHENTICATED" "token ausente", w)
    else with_claims fields (parse raw) next w

-- `Authenticate`
unfoldable pub authenticate :
    (Text → Option Claims) → (Text → List String) → Text → Guarded → World → Reply × World
authenticate parse fields header next w =
    with_token parse fields (without_prefix (codes "Bearer ") header) next w

-- `Authorize`
unfoldable pub authorize : String → Guarded → Guarded
authorize scope next p w =
    if not (has_scope p.scopes scope)
    then (problem 403 "FORBIDDEN" "escopo insuficiente", w)
    else next p w

-- `requireMerchant`
unfoldable pub require_merchant : (String → World → Reply × World) → Guarded
require_merchant next p w =
    if str_eq p.merchant_id ""
    then (problem 403 "FORBIDDEN" "esta operação exige credencial de estabelecimento", w)
    else next p.merchant_id w

-- `ownedMerchantID`
unfoldable pub owned_merchant_id : String → (String → World → Reply × World) → Guarded
owned_merchant_id url_id next p w =
    if not (str_eq p.merchant_id "") && not (str_eq p.merchant_id url_id)
    then (problem 403 "FORBIDDEN" "você não pode acessar outro estabelecimento", w)
    else next url_id w
