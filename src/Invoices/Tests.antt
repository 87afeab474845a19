-- ===== src/Invoices/Tests.antt =====
-- The page of an invoice with two charges and a tax, where amounts are natural numbers and a JSON
-- object is a text whose bytes are both names and numbers.
use invoices_contracts.Base.{
  ◌≡◌, ℕ, ◌+◌, ◌*◌, ◌-◌, refl, false, List, [], ◌∷◌, none, some, Text, ascii, text_beq, ltb,
  if◌then◌else◌,
}
use invoices_contracts.Base.Int.{pos}
use invoices_contracts.Models.{Invoice}
use invoices_contracts.Database.{Database}
use invoices_contracts.Program.{value, ◌>>=◌, map_err}
use invoices_contracts.Auth.Store.{fine, access, get_user_by_email}
use invoices_contracts.Accounts.World.{home, ann, ann_session}
use invoices_contracts.Contracts.World.{holder}
use invoices_contracts.Crud.{find_row, query}
use invoices_contracts.Invoices.{Amounts, filter_map, sum_from, compute_subtotal, compute_total}
use invoices_contracts.Invoices.Page.{PageFaults, page_of, view_invoice}
use invoices_contracts.Invoices.Shown.{IsShown, view_invoice-IsShown}

abbrev entries : Text → List (Text × ℕ)
entries [] = []
entries (b ∷ text) = (b ∷ [], b) ∷ entries text

abbrev pub naturals : Amounts ℕ ℕ ℕ
naturals = record {
  zero = 0;
  hundred = 100;
  add = λ a b. a + b;
  subtract = λ a b. a - b;
  times = λ a b. a * b;
  less = λ a b. ltb a b;
  from_str_exact = λ t. some 7;
  try_from = λ n. if ltb n 1000 then some n else none;
  percent = λ n. n ∷ [];
  parse_map = λ t. some (entries t);
  as_f64 = λ n. some n;
  trim = λ t. t;
}

abbrev bill : Invoice
bill = record {
  id = some (ascii "i");
  serial_no = pos 1;
  customer_id = ascii "u";
  due_date = none;
  status = none;
  payment_made = some (ascii "7");
  line_charges = some (20 ∷ (2000 ∷ (30 ∷ [])));
  after_line_items = some (2 ∷ []);
  memo = none;
}

abbrev billed : Database
billed = record home.db { invoices = bill ∷ [] }

abbrev calm : PageFaults
calm = record { connect = false; user = fine; invoice = false; customer = false }

shows :
    view_invoice naturals calm ann_session (ascii "i") billed
    ≡ (value (page_of naturals ann bill holder), billed)
unfolding view_invoice ◌>>=◌ map_err get_user_by_email access find_row query text_beq
shows = refl

total_example : compute_total naturals bill ≡ 150
unfolding compute_total compute_subtotal sum_from filter_map
total_example = refl

view_invoice-IsShown_example :
    IsShown naturals ann_session (ascii "i") billed (page_of naturals ann bill holder)
    × (billed ≡ billed)
view_invoice-IsShown_example =
    view_invoice-IsShown naturals calm ann_session (ascii "i") billed billed
      (page_of naturals ann bill holder) shows
