-- ===== src/Crud/Lawful.antt =====
-- src/handlers/crud.rs and src/handlers/contracts.rs: what the implementations of CrudModel owe.
use invoices_contracts.Base.{refl}
use invoices_contracts.Contracts.Admin.{apply_changes}
use invoices_contracts.Crud.Tables.{contract_table, customer_table, invoice_table}
use invoices_contracts.Crud.Rows.{IsTable}

pub customer_table-IsTable : IsTable customer_table
customer_table-IsTable = record {
  rows-with_rows = λ rows db. refl;
  key-row_of = λ uuid payload. refl;
  key-change = λ payload c. refl;
}

pub invoice_table-IsTable : IsTable invoice_table
invoice_table-IsTable = record {
  rows-with_rows = λ rows db. refl;
  key-row_of = λ uuid payload. refl;
  key-change = λ payload i. refl;
}

pub contract_table-IsTable : IsTable contract_table
unfolding apply_changes
contract_table-IsTable = record {
  rows-with_rows = λ rows db. refl;
  key-row_of = λ uuid payload. refl;
  key-change = λ payload c. refl;
}
