-- ===== src/Crud/OfContracts.antt =====
-- src/handlers/contracts.rs: the implementation of CrudModel for contracts. Its methods are those
-- of the other implementations, but for `insert`, which fills in defaults and reads the row back in
-- a second query. No route uses it.
use invoices_contracts.Base.{
  ◌≡◌, refl, Bool, true, false, Bool-cases, inl, inr, Text, text_eq, option_eq, any, arith,
}
use invoices_contracts.Models.{Contract, ContractPayload}
use invoices_contracts.Database.{Database, is_contract}
use invoices_contracts.Program.{◌>>=◌, or_return}
use invoices_contracts.Contracts.Create.{find-new}
use invoices_contracts.Crud.{QueryResult, database_error, Faults, query, insert, find_row}
use invoices_contracts.Crud.Rows.{faults}
use invoices_contracts.Crud.Tables.{contract_table, contract_of}

unfoldable pub insert_and_read : Faults → Text → Text → ContractPayload → QueryResult Contract
insert_and_read f uuid now payload = do
  row ← insert contract_table f uuid (now, payload)
  found ← find_row contract_table f.second uuid
  or_return database_error found

-- Where the second query does not fail, the row that is read is the one that was inserted.
pub insert_and_read-insert :
    (c a : Bool) (uuid now : Text) (payload : ContractPayload) (db : Database)
    → insert_and_read (faults c a false) uuid now payload db
      ≡ insert contract_table (faults c a false) uuid (now, payload) db
unfolding insert_and_read insert find_row query or_return ◌>>=◌
insert_and_read-insert c true uuid now payload db = refl
insert_and_read-insert c false uuid now payload db =
    elim (Bool-cases (any (is_contract uuid) db.contracts)) [
      | inl taken ↦ ground arith
      | inr free ↦
          ground (arith, find-new uuid (contract_of uuid now payload) db.contracts free refl)
    ]
