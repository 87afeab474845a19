-- ===== src/Crud/Keeps.antt =====
-- src/handlers/crud.rs: what the handlers of a table keep.
use invoices_contracts.Base.{Bool, true, false, List, [], ◌∷◌, ◌++◌, Text, arith}
use invoices_contracts.Database.{Database}
use invoices_contracts.Program.Rules.{Preserves, preserves_rules}
use invoices_contracts.Crud.{
  Faults, Table, QueryResult, query, connection, all, find_row, insert, execute_update, update_row,
  delete, list, create, read_one, update_one, delete_one,
}

module _ (P : Database → Type 0) where
  connection-kept : (f : Faults) (db : Database) → P db → P (connection f db).1
  unfolding connection
  connection-kept f db p = ground (arith, p)

  connection-Preserves : (f : Faults) → Preserves P (connection f)
  connection-Preserves f = record { kept = connection-kept f }

  query-kept :
      {A : Type 0} (fault : Bool) (m : QueryResult A) (db : Database)
      → (P db → P (m db).1)
      → P db
      → P (query fault m db).1
  unfolding query
  query-kept true m db keep p = p
  query-kept false m db keep p = keep p

  module _ {Row Payload : Type 0} (t : Table Row Payload) where
    pub find_row-Preserves : (fault : Bool) (id : Text) → Preserves P (find_row t fault id)
    unfolding find_row
    find_row-Preserves fault id = record { kept = λ db. query-kept fault _ db (λ p. p) }

    -- What the rows do not bear on.
    module _ (aside : (rows : List Row) (db : Database) → P db → P (t.with_rows rows db)) where
      all-Preserves : (f : Faults) → Preserves P (all t f)
      unfolding all
      all-Preserves f = record { kept = λ db. query-kept f.first _ db (λ p. p) }

      insert-Preserves :
          (f : Faults) (uuid : Text) (payload : Payload) → Preserves P (insert t f uuid payload)
      unfolding insert
      insert-Preserves f uuid payload = record {
        kept = λ db.
            query-kept f.first _ db
              (λ p. ground (arith, p, aside (t.rows db ++ t.row_of uuid payload ∷ []) db p));
      }

      execute_update-Preserves :
          (fault : Bool) (id : Text) (payload : Payload)
          → Preserves P (execute_update t fault id payload)
      unfolding execute_update
      execute_update-Preserves fault id payload = record {
        kept = λ db. query-kept fault _ db (aside _ db);
      }

      update_row-Preserves :
          (f : Faults) (id : Text) (payload : Payload) → Preserves P (update_row t f id payload)
      unfolding update_row
      update_row-Preserves f id payload =
          search (preserves_rules, execute_update-Preserves, find_row-Preserves) depth 10

      delete-Preserves : (f : Faults) (id : Text) → Preserves P (delete t f id)
      unfolding delete
      delete-Preserves f id = record { kept = λ db. query-kept f.first _ db (aside _ db) }

      ruleset row_rules = (
        preserves_rules, connection-Preserves, all-Preserves, find_row-Preserves, insert-Preserves,
        update_row-Preserves, delete-Preserves,
      )

      pub list-Preserves : (f : Faults) → Preserves P (list t f)
      unfolding list
      list-Preserves f = search row_rules depth 10

      pub create-Preserves :
          (f : Faults) (uuid : Text) (payload : Payload) → Preserves P (create t f uuid payload)
      unfolding create
      create-Preserves f uuid payload = search row_rules depth 10

      pub read_one-Preserves : (f : Faults) (id : Text) → Preserves P (read_one t f id)
      unfolding read_one
      read_one-Preserves f id = search row_rules depth 10

      pub update_one-Preserves :
          (f : Faults) (id : Text) (payload : Payload) → Preserves P (update_one t f id payload)
      unfolding update_one
      update_one-Preserves f id payload = search row_rules depth 10

      pub delete_one-Preserves : (f : Faults) (id : Text) → Preserves P (delete_one t f id)
      unfolding delete_one
      delete_one-Preserves f id = search row_rules depth 10
