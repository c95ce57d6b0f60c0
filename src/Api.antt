-- ===== src/Api.antt =====
-- app/api.py: the routes, and the one place that maps a failure to a response.
pub mod Responses
pub mod RuleSets
pub mod Transactions
pub mod Examples
