-- ===== src/Crud/Tables.antt =====
-- src/handlers/crud.rs and src/handlers/contracts.rs: the tables of the implementations of CrudModel,
-- for customers, invoices and contracts.
use invoices_contracts.Base.{[], ◌∷◌, Option, none, some, Text, ◌==◌, if◌then◌else◌}
use invoices_contracts.Base.Int.{ℤ, pos, int_eq}
use invoices_contracts.Models.{
  Contract, ContractPayload, Customer, CustomerPayload, Invoice, InvoicePayload,
}
use invoices_contracts.Database.Billing.{customer_row, invoice_row}
use invoices_contracts.Database.{contract_row}
use invoices_contracts.Contracts.Access.{pending}
use invoices_contracts.Contracts.Admin.{apply_changes}
use invoices_contracts.Crud.{Table}

-- A changeset leaves out the primary key and the fields that are `None`.
abbrev or_stay : {A : Type 0} → Option A → Option A → Option A
or_stay none old = old
or_stay (some new) old = some new

abbrev pub change_customer : CustomerPayload → Customer → Customer
change_customer p c = record {
  id = c.id;
  name = p.name;
  address = or_stay p.address c.address;
  currency = or_stay p.currency c.currency;
  is_active = or_stay p.is_active c.is_active;
}

abbrev pub change_invoice : InvoicePayload → Invoice → Invoice
change_invoice p i = record {
  id = i.id;
  serial_no = p.serial_no;
  customer_id = p.customer_id;
  due_date = or_stay p.due_date i.due_date;
  status = or_stay p.status i.status;
  payment_made = or_stay p.payment_made i.payment_made;
  line_charges = or_stay p.line_charges i.line_charges;
  after_line_items = or_stay p.after_line_items i.after_line_items;
  memo = or_stay p.memo i.memo;
}

abbrev pub customer_table : Table Customer CustomerPayload
customer_table = record {
  rows = λ db. db.customers;
  with_rows = λ rows db. record db { customers = rows };
  key = λ c. c.id;
  row_of = λ uuid p. customer_row (record p { id = some uuid });
  change = change_customer;
}

abbrev pub invoice_table : Table Invoice InvoicePayload
invoice_table = record {
  rows = λ db. db.invoices;
  with_rows = λ rows db. record db { invoices = rows };
  key = λ i. i.id;
  row_of = λ uuid p. invoice_row (record p { id = some uuid });
  change = change_invoice;
}

-- The defaults of an insertion: the time for an empty `created_at`, the status of a new contract,
-- and one signature where none is required.
abbrev or_filled : Text → Text → Text
or_filled [] default = default
or_filled (c ∷ cs) default = c ∷ cs

abbrev or_one : ℤ → ℤ
or_one n = if n == pos 0 then pos 1 else n

abbrev pub contract_of : Text → Text → ContractPayload → Contract
contract_of uuid now p = contract_row (record p {
  id = some uuid;
  created_at = or_filled p.created_at now;
  status = or_filled p.status pending;
  required_signatures = or_one p.required_signatures;
})

-- A payload comes with the time at which it is inserted.
abbrev pub contract_table : Table Contract (Text × ContractPayload)
contract_table = record {
  rows = λ db. db.contracts;
  with_rows = λ rows db. record db { contracts = rows };
  key = λ c. c.id;
  row_of = λ uuid p. contract_of uuid p.0 p.1;
  change = λ p. apply_changes p.1;
}
