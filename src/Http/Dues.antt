-- ===== src/Http/Dues.antt =====
-- internal/handler/http/receivables.go, less the daily sums and the list of settlements.
use adquirente.Base.{String, str_eq, Option, none, some, List, if◌then◌else◌}
use adquirente.Base.Int.{ℤ}
use adquirente.Shared.Error.{Error}
use adquirente.Shared.Time.{Time}
use adquirente.Receivable.{Receivable}
use adquirente.Receivable as Due
use adquirente.Store.{World}
use adquirente.Application.Scheduling.{list_receivables}
use adquirente.Http.Answers.{Printing, to_receivable_responses}
use adquirente.Http.Replies.{Reply, problem, answer, receivables_body}
use adquirente.Http.Guards.{Guarded, require_merchant}

-- `parseDate`: none for an error, and no date for an empty text. `parse` is `time.Parse`.
abbrev pub parse_date : (String → Option Time) → String → Option (Option Time)
parse_date parse s =
    if str_eq s "" then some none else elim (parse s) [ none ↦ none | some t ↦ some (some t) ]

-- The parameters of the query string; the limit is what `Atoi` makes of its text, and a status that
-- is none of the statuses is left out.
pub record DuesQuery : Type 0 where
  pub status : Option Due.Status
  pub from : String
  pub to : String
  pub limit : ℤ

abbrev pub with_dates :
    Option (Option Time)
    → Option (Option Time)
    → (Option Time → Option Time → World → Reply × World)
    → World
    → Reply × World
with_dates none to next w = (problem 400 "INVALID_DATE" "from deve ser YYYY-MM-DD", w)
with_dates (some from) none next w = (problem 400 "INVALID_DATE" "to deve ser YYYY-MM-DD", w)
with_dates (some from) (some to) next w = next from to w

-- `ReceivableHandler.List`
unfoldable pub get_receivables :
    Printing
    → (Error → String)
    → (String → Option Time)
    → (List Receivable → List Receivable)
    → DuesQuery
    → Guarded
get_receivables p text parse sorted q = require_merchant λ merchant_id.
    with_dates (parse_date parse q.from) (parse_date parse q.to) λ from to w.
      answer text
        (λ list. record {
          status = 200;
          location = none;
          body = receivables_body (to_receivable_responses p list);
        })
        (list_receivables sorted merchant_id
          (record { status = q.status; from = from; to = to; limit = 0 }) q.limit w)
