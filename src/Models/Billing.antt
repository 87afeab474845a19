-- ===== src/Models/Billing.antt =====
-- src/models.rs: the rows of invoices, and what an insertion or an update of a customer or an
-- invoice gives. The JSON columns are texts.
use invoices_contracts.Base.{Bool, Option, Text}
use invoices_contracts.Base.Int.{ℤ}

pub record CustomerPayload : Type 0 where
  pub id : Option Text
  pub name : Text
  pub address : Option Text
  pub currency : Option Text
  pub is_active : Option Bool

pub record Invoice : Type 0 where
  pub id : Option Text
  pub serial_no : ℤ
  pub customer_id : Text
  pub due_date : Option Text
  pub status : Option Text
  pub payment_made : Option Text
  pub line_charges : Option Text
  pub after_line_items : Option Text
  pub memo : Option Text

pub record InvoicePayload : Type 0 where
  pub id : Option Text
  pub serial_no : ℤ
  pub customer_id : Text
  pub due_date : Option Text
  pub status : Option Text
  pub payment_made : Option Text
  pub line_charges : Option Text
  pub after_line_items : Option Text
  pub memo : Option Text
