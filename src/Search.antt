-- ===== src/Search.antt =====
-- IMAP SEARCH (search.go): the criteria of a query, the test of one message, and the filter.
pub mod Criteria
pub mod Markup
pub mod Results
pub mod Command
