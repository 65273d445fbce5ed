-- ===== src/State/Storage.antt =====
-- What state/state.go uses of the SQL database: a parameter.
use go_crawling_bazaar.Base.{ℕ, Bool, Option}
use go_crawling_bazaar.Types.Queries.{Query}

-- `parse` is convertQueryAndBuildArgs: whether the query changes the schema, or an error. `exec` is
-- what the writer makes of a query that parses: the changed database with the number of affected
-- rows, or an error, which changes nothing. `rows` is the number of rows that a reader gets. `stored`
-- is what a database holds without the transaction that a query has begun on its connection: what
-- other connections see of it, and what a ROLLBACK leaves. The savepoint statements may fail too. A
-- query inside the state's own transaction does not end it and sets no savepoint.
pub record Engine (Db : Type 0) : Type 0 where
  pub parse : Query → Option Bool
  pub exec : Query → Db → Option (Db × ℕ)
  pub rows : Query → Db → Option ℕ
  pub stored : Db → Db
  pub savepoint_fails : ℕ → Bool
  pub release_fails : ℕ → Bool
