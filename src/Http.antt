-- ===== src/Http.antt =====
-- internal/handler/http: the API. The printing of dates and numbers, and what gin reads of a request,
-- are arguments.
pub mod Names
pub mod Answers
pub mod Replies
pub mod Guards
pub mod Sales
pub mod Shops
pub mod Offers
pub mod Access
pub mod Isolation
pub mod Dues
pub mod Lists
