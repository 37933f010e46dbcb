-- ===== src/Tests/Api.antt =====
-- Examples for the API: a merchant asks for its sale, and a request with a token.
use adquirente.Base.{Option, some, String, List, [], ◌∷◌}
use adquirente.Base.Texts.{Text, codes}
use adquirente.Shared.Error.{Error}
use adquirente.Tests.Data.{monday}
use adquirente.Tests.UseCases.{start}
use adquirente.Application.Lifecycle.{capture_sale, cancel_sale, get_sale}
use adquirente.Http.Answers.{Printing}
use adquirente.Http.Guards.{Principal, Claims, authenticate, authorize}
use adquirente.Http.Sales.{get_transaction, post_capture, post_cancel}
use adquirente.Transaction.Graph.{capture_call, cancel_call}
use adquirente.Http.Access.{IsGuarded, authenticate-IsGuarded}
use adquirente.Http.Isolation.{IsOwn, Sees, Changes, sales-IsOwn}

abbrev printing : Printing
printing = record { date_text = λ t. "2024-03-11"; decimal = λ n. "100"; two_digits = λ n. "00" }

abbrev in_text : Error → String
in_text e = "erro"

abbrev holder : Principal
holder = record { client_id = "c_1"; merchant_id = "m_1"; scopes = "transactions:write" ∷ [] }

sales-IsOwn_example :
    IsOwn printing in_text
      (λ m. get_sale m "tx_1")
      (Sees "tx_1")
      holder
      start
      (get_transaction printing in_text "tx_1" holder start)
    × IsOwn printing in_text
        (λ m. capture_sale "ev_2" monday m "tx_1")
        (Changes (capture_call "ev_2" monday) "tx_1")
        holder
        start
        (post_capture printing in_text "ev_2" monday "tx_1" holder start)
    × IsOwn printing in_text
        (λ m. cancel_sale "ev_2" monday m "tx_1")
        (Changes (cancel_call "ev_2" monday) "tx_1")
        holder
        start
        (post_cancel printing in_text "ev_2" monday "tx_1" holder start)
sales-IsOwn_example = sales-IsOwn printing in_text "ev_2" monday "tx_1" holder start

-- Every token is read as these claims.
abbrev claims_of : Text → Option Claims
claims_of raw =
    some (record { subject = "c_1"; merchant_id = "m_1"; scope = codes "transactions:read" })

abbrev words : Text → List String
words t = "transactions:read" ∷ []

authenticate-IsGuarded_example :
    IsGuarded claims_of words
      (codes "Bearer abc")
      "transactions:read"
      (get_transaction printing in_text "tx_1")
      start
      (authenticate claims_of words
        (codes "Bearer abc")
        (authorize "transactions:read" (get_transaction printing in_text "tx_1"))
        start)
authenticate-IsGuarded_example =
    authenticate-IsGuarded claims_of words (codes "Bearer abc") "transactions:read"
      (get_transaction printing in_text "tx_1") start
