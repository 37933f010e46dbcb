-- ===== src/Http/Access.antt =====
-- Who gets an answer from the API: internal/handler/http/middleware/auth.go.
use adquirente.Base.{
  ◌≡◌, refl, ◌⊎◌, inl, inr, Bool-cases, true, false, String, Option, Option-cases, none, some, List,
}
use adquirente.Base.Texts.{Text, codes, is_empty}
use adquirente.Base.Assoc.{string_eq}
use adquirente.Store.{World}
use adquirente.Http.Replies.{Reply}
use adquirente.Http.Guards.{Claims, has_scope, without_prefix, Guarded, authenticate, authorize}

-- The request has no token, an empty one, or one that the JWT library refuses.
abbrev pub IsUnknown : (Text → Option Claims) → Text → Type 0
IsUnknown parse header =
    (without_prefix (codes "Bearer ") header ≡ none)
    ⊎ ((raw : Text) × (without_prefix (codes "Bearer ") header ≡ some raw)
        × ((is_empty raw ≡ true) ⊎ (parse raw ≡ none)))

-- The token is accepted, and its claims lack the scope.
abbrev pub Lacks : (Text → Option Claims) → (Text → List String) → Text → String → Type 0
Lacks parse fields header scope =
    (raw : Text) × (cl : Claims) × (without_prefix (codes "Bearer ") header ≡ some raw)
    × (parse raw ≡ some cl)
    × (has_scope (fields cl.scope) scope ≡ false)

-- A guarded handler ran for the holder of a token, or the request was turned away and nothing happened.
abbrev pub IsGuarded :
    (Text → Option Claims)
    → (Text → List String)
    → Text
    → String
    → Guarded
    → World
    → Reply × World
    → Type 0
IsGuarded parse fields header scope next w r =
    ((raw : Text) × (cl : Claims) × (without_prefix (codes "Bearer ") header ≡ some raw)
      × (is_empty raw ≡ false)
      × (parse raw ≡ some cl)
      × (has_scope (fields cl.scope) scope ≡ true)
      × (r
          ≡ next
              (record {
                client_id = cl.subject;
                merchant_id = cl.merchant_id;
                scopes = fields cl.scope;
              })
              w))
    ⊎ ((((r.0.status ≡ 401) × IsUnknown parse header)
          ⊎ ((r.0.status ≡ 403) × Lacks parse fields header scope))
        × (r.1 ≡ w))

-- Behind `Authenticate` and `Authorize`, a handler runs exactly for a bearer token that the JWT library
-- accepts and whose claims hold the scope, and with the merchant of those claims. A request without
-- a token, with an empty one or with one that the library refuses is answered 401, and one whose
-- claims lack the scope 403; nothing is read or changed then.
pub authenticate-IsGuarded :
    (parse : Text → Option Claims) (fields : Text → List String) (header : Text) (scope : String)
    (next : Guarded) (w : World)
    → IsGuarded parse fields header scope next w
        (authenticate parse fields header (authorize scope next) w)
unfolding authenticate authorize
authenticate-IsGuarded parse fields header scope next w =
    elim (Option-cases (without_prefix (codes "Bearer ") header)) [
      | inl missing ↦ rw missing (inr (inl (refl, inl refl), refl))
      | inr (raw, found) ↦ elim (Bool-cases (is_empty raw)) [
        | inl empty ↦ rw (found, empty) (inr (inl (refl, inr (raw, refl, inl empty)), refl))
        | inr filled ↦ elim (Option-cases (parse raw)) [
          | inl refused ↦
              rw (found, filled, refused) (inr (inl (refl, inr (raw, refl, inr refused)), refl))
          | inr (cl, accepted) ↦ elim (Bool-cases (has_scope (fields cl.scope) scope)) [
            | inl held ↦
                inl
                  (raw, cl, found, filled, accepted, held, rw (found, filled, accepted, held) refl)
            | inr lacking ↦
                rw (found, filled, accepted, lacking)
                  (inr (inr (refl, (raw, cl, refl, accepted, lacking)), refl))
          ]
        ]
      ]
    ]
