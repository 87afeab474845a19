-- ===== src/Database/Billing.antt =====
-- The tables customer and invoices of src/schema.rs: the rows that src/handlers/crud.rs inserts.
use invoices_contracts.Base.{Bool, true, Option, none, some, text_eq, option_eq}
use invoices_contracts.Models.{Customer, CustomerPayload, Invoice, InvoicePayload}

-- `DEFAULT TRUE`, which an insertion without a value gets.
abbrev pub or_default : Option Bool → Option Bool
or_default none = some true
or_default (some b) = some b

abbrev pub customer_row : CustomerPayload → Customer
customer_row p = record {
  id = p.id;
  name = p.name;
  address = p.address;
  currency = p.currency;
  is_active = or_default p.is_active;
}

abbrev pub invoice_row : InvoicePayload → Invoice
invoice_row p = record {
  id = p.id;
  serial_no = p.serial_no;
  customer_id = p.customer_id;
  due_date = p.due_date;
  status = p.status;
  payment_made = p.payment_made;
  line_charges = p.line_charges;
  after_line_items = p.after_line_items;
  memo = p.memo;
}
