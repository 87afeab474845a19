-- ===== src/Invoices/Page.antt =====
-- src/main.rs: `view_invoice_handler`, behind the extractor, with what it hands to its template.
use invoices_contracts.Base.{
  Bool, false, not, List, [], Option, none, some, Text, ascii, ◌==◌, text_eq, if◌then◌else◌,
}
use invoices_contracts.Models.{User, Customer, Invoice}
use invoices_contracts.Database.{Database}
use invoices_contracts.Server.{StatusCode, not_found, internal_server_error}
use invoices_contracts.Program.{Program, pure, or_return, check, ◌>>=◌, ◌>>◌, map_err}
use invoices_contracts.Auth.Store.{Condition, get_user_by_email}
use invoices_contracts.Auth.Cookies.{AuthUser}
use invoices_contracts.Crud.{find_row}
use invoices_contracts.Crud.Tables.{customer_table, invoice_table}
use invoices_contracts.Invoices.{
  Amounts, filter_map, map_list, and_then, split_at, sum, payment_made_decimal,
}

pub record LineItem (D : Type 0) : Type 0 where
  pub description : Text
  pub amount : D

pub record AfterLineItemDisplay (D : Type 0) : Type 0 where
  pub name : Text
  pub percentage_display : Text
  pub calculated_amount : D
  pub is_discount : Bool

pub record InvoiceView (D : Type 0) : Type 0 where
  pub user : User
  pub user_address_lines : List Text
  pub invoice : Invoice
  pub customer : Customer
  pub customer_address_lines : List Text
  pub line_items : List (LineItem D)
  pub after_items : List (AfterLineItemDisplay D)
  pub subtotal : D
  pub total : D
  pub payment_made : Option D
  pub balance_due : Option D
  pub show_payment_info : Bool

-- Which of the accesses of the handler fail.
pub record PageFaults : Type 0 where
  pub connect : Bool
  pub user : Condition
  pub invoice : Bool
  pub customer : Bool

module _ {D V F : Type 0} (m : Amounts D V F) where
  abbrev pub trimmed_line : Text → Option Text
  trimmed_line line = if m.trim line == [] then none else some (m.trim line)

  -- The lines of an address, at `<sp>`.
  unfoldable pub address_lines : Text → List Text
  address_lines address = filter_map trimmed_line (split_at (ascii "<sp>") 0 address)

  abbrev pub address_lines_of : Option Text → List Text
  address_lines_of none = []
  address_lines_of (some address) = address_lines address

  -- `val.as_f64().and_then(|f| Decimal::try_from(f).ok())`
  abbrev pub decimal_of : V → Option D
  decimal_of v = and_then m.try_from (m.as_f64 v)

  abbrev pub line_item : Text × V → Option (LineItem D)
  line_item entry =
      and_then (λ amount. some (record { description = entry.0; amount = amount }))
        (decimal_of entry.1)

  abbrev pub after_item : D → Text × V → Option (AfterLineItemDisplay D)
  after_item subtotal entry =
      and_then
        (λ percentage. some (record {
          name = entry.0;
          percentage_display = m.percent (m.times percentage m.hundred);
          calculated_amount = m.times subtotal percentage;
          is_discount = m.less percentage m.zero;
        }))
        (decimal_of entry.1)

  -- The items of a JSON object, or none where there is none.
  abbrev pub items_of : {A : Type 0} → (Text × V → Option A) → Option Text → List A
  items_of f json = elim (and_then m.parse_map json) [
    | none ↦ []
    | some entries ↦ filter_map f entries
  ]

  unfoldable pub line_items_of : Invoice → List (LineItem D)
  line_items_of i = items_of line_item i.line_charges

  unfoldable pub after_items_of : D → Invoice → List (AfterLineItemDisplay D)
  after_items_of subtotal i = items_of (after_item subtotal) i.after_line_items

  abbrev pub is_some_and : (D → Bool) → Option D → Bool
  is_some_and f none = false
  is_some_and f (some d) = f d

  unfoldable pub page_of : User → Invoice → Customer → InvoiceView D
  page_of user invoice customer =
      let line_items = line_items_of invoice in
      let subtotal = sum m (map_list (λ item. item.amount) line_items) in
      let after_items = after_items_of subtotal invoice in
      let total = m.add subtotal (sum m (map_list (λ item. item.calculated_amount) after_items)) in
      let payment_made = payment_made_decimal m invoice in
      record {
        user = user;
        user_address_lines = address_lines user.address;
        invoice = invoice;
        customer = customer;
        customer_address_lines = address_lines_of customer.address;
        line_items = line_items;
        after_items = after_items;
        subtotal = subtotal;
        total = total;
        payment_made = payment_made;
        balance_due = and_then (λ paid. some (m.subtract total paid)) payment_made;
        show_payment_info = is_some_and (λ paid. m.less m.zero paid) payment_made;
      }

  unfoldable pub view_invoice :
      PageFaults → AuthUser → Text → Program Database StatusCode (InvoiceView D)
  view_invoice f auth_user invoice_id = do
    check internal_server_error (not f.connect)
    user ← map_err (λ e. internal_server_error) (get_user_by_email f.user auth_user.email)
    found ← map_err (λ e. internal_server_error) (find_row invoice_table f.invoice invoice_id)
    invoice ← or_return not_found found
    found_customer ←
        map_err (λ e. internal_server_error)
          (find_row customer_table f.customer invoice.customer_id)
    customer ← or_return not_found found_customer
    pure (page_of user invoice customer)
