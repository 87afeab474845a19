-- ===== src/Crud.antt =====
-- src/handlers/crud.rs: the trait CrudModel and its handlers, behind the extractor. The
-- implementations of the trait for customers and invoices differ in their table alone, which is a
-- parameter here.
pub mod Tables
pub mod Map
pub mod Finds
pub mod Keeps
pub mod Rows
pub mod Refines
pub mod Lawful
pub mod OfContracts
mod Tests
use invoices_contracts.Base.{
  Bool, true, false, List, [], ◌∷◌, ◌++◌, Option, none, some, Text, ◌==◌, text_eq, option_eq, not,
  any, find, filter, update, if◌then◌else◌,
}
use invoices_contracts.Database.{Database}
use invoices_contracts.Server.{StatusCode, created, no_content, not_found, internal_server_error}
use invoices_contracts.Program.{
  Try, value, stop, Program, pure, return_early, or_return, ◌>>=◌, ◌>>◌, map_err,
}

pub data QueryError : Type 0 where
  database_error : QueryError

abbrev pub QueryResult : Type 0 → Type 0
QueryResult A = Program Database QueryError A

-- Whether there is no connection, and whether the first and the second query of a method fail.
pub record Faults : Type 0 where
  pub connect : Bool
  pub first : Bool
  pub second : Bool

-- A table: its rows, their key, the row of a new payload with its UUID, and `set(&payload)`, which
-- leaves the key as it is.
pub record Table (Row Payload : Type 0) : Type 0 where
  pub rows : Database → List Row
  pub with_rows : List Row → Database → Database
  pub key : Row → Option Text
  pub row_of : Text → Payload → Row
  pub change : Payload → Row → Row

unfoldable pub query : {A : Type 0} → Bool → QueryResult A → QueryResult A
query true m db = (stop database_error, db)
query false m db = m db

unfoldable pub connection : Faults → Program Database StatusCode (Unit {0})
connection f db = if f.connect then (stop internal_server_error, db) else (value tt, db)

module _ {Row Payload : Type 0} (t : Table Row Payload) where
  abbrev pub has_id : Text → Row → Bool
  has_id id r = t.key r == some id

  -- The methods of the trait.
  unfoldable pub all : Faults → QueryResult (List Row)
  all f = query f.first (λ db. (value (t.rows db), db))

  unfoldable pub find_row : Bool → Text → QueryResult (Option Row)
  find_row fault id = query fault (λ db. (value (find (has_id id) (t.rows db)), db))

  unfoldable pub insert : Faults → Text → Payload → QueryResult Row
  insert f uuid payload = query f.first (λ db.
      if any (has_id uuid) (t.rows db) then (stop database_error, db) else (
        value (t.row_of uuid payload),
        t.with_rows (t.rows db ++ t.row_of uuid payload ∷ []) db,
      ))

  -- Whether `execute` has updated a row.
  unfoldable pub execute_update : Bool → Text → Payload → QueryResult Bool
  execute_update fault id payload = query fault (λ db. (
    value (any (has_id id) (t.rows db)),
    t.with_rows (update (has_id id) (t.change payload) (t.rows db)) db,
  ))

  unfoldable pub update_row : Faults → Text → Payload → QueryResult (Option Row)
  update_row f id payload = do
    updated ← execute_update f.first id payload
    if updated then find_row f.second id else pure none

  unfoldable pub delete : Faults → Text → QueryResult Bool
  delete f id = query f.first (λ db. (
    value (any (has_id id) (t.rows db)),
    t.with_rows (filter (λ r. not (has_id id r)) (t.rows db)) db,
  ))

  -- The handlers.
  unfoldable pub list : Faults → Program Database StatusCode (List Row)
  list f = do connection f; map_err (λ e. internal_server_error) (all f)

  unfoldable pub create : Faults → Text → Payload → Program Database StatusCode (StatusCode × Row)
  create f uuid payload = do
    connection f
    row ← map_err (λ e. internal_server_error) (insert f uuid payload)
    pure (created, row)

  unfoldable pub read_one : Faults → Text → Program Database StatusCode Row
  read_one f id = do
    connection f
    found ← map_err (λ e. internal_server_error) (find_row f.first id)
    or_return not_found found

  unfoldable pub update_one : Faults → Text → Payload → Program Database StatusCode Row
  update_one f id payload = do
    connection f
    found ← map_err (λ e. internal_server_error) (update_row f id payload)
    or_return not_found found

  -- The status code of the deletion.
  unfoldable pub delete_one : Faults → Text → Program Database StatusCode StatusCode
  delete_one f id = do
    connection f
    deleted ← map_err (λ e. internal_server_error) (delete f id)
    pure (if deleted then no_content else not_found)
