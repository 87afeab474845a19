-- ===== src/Invoices/Shown.antt =====
-- src/main.rs: the page of an invoice that is shown.
use invoices_contracts.Base.{◌≡◌, ap, ◌∙◌, Bool, true, false, Option, some, arith, Text, find}
use invoices_contracts.Database.{Database}
use invoices_contracts.Database.Accounts.{has_email}
use invoices_contracts.Program.{value}
use invoices_contracts.Program.Rules.{split_bind, subst-pure, check-inv, or_return-inv, map_err-inv}
use invoices_contracts.Auth.Cookies.{AuthUser}
use invoices_contracts.Accounts.UpdateChecks.{get_user-inv}
use invoices_contracts.Crud.{Table, query, find_row}
use invoices_contracts.Crud.Map.{lookup}
use invoices_contracts.Crud.Tables.{customer_table, invoice_table}
use invoices_contracts.Invoices.{Amounts, compute_subtotal, compute_total}
use invoices_contracts.Invoices.Page.{InvoiceView, PageFaults, page_of, view_invoice}
use invoices_contracts.Invoices.Totals.{subtotal_shown, total_shown}

find_row-inv :
    {Row Payload : Type 0} (t : Table Row Payload) (b : Bool) (id : Text) (s s' : Database)
    (o : Option Row)
    → find_row t b id s ≡ (value o, s')
    → (lookup t s id ≡ o) × (s ≡ s')
unfolding find_row query
find_row-inv t true id s s' o h = absurd (ground arith)
find_row-inv t false id s s' o h = (ground arith, ground arith)

-- A page shows what is stored, with the amounts that the invoice computes.
pub record IsShown {D V F : Type 0} (m : Amounts D V F) (auth_user : AuthUser) (id : Text)
    (db : Database) (page : InvoiceView D) : Type 0 where
  pub user_stored : find (has_email auth_user.email) db.users ≡ some page.user
  pub invoice_stored : lookup invoice_table db id ≡ some page.invoice
  pub customer_stored : lookup customer_table db page.invoice.customer_id ≡ some page.customer
  pub subtotal_right : page.subtotal ≡ compute_subtotal m page.invoice
  pub total_right : page.total ≡ compute_total m page.invoice

-- An invoice page that is shown has the stored user, invoice and customer, and its subtotal and
-- total are those that `compute_subtotal` and `compute_total` give for the invoice; the handler
-- changes no table.
pub view_invoice-IsShown :
    {D V F : Type 0} (m : Amounts D V F) (f : PageFaults) (auth_user : AuthUser) (id : Text)
    (s t : Database) (page : InvoiceView D)
    → view_invoice m f auth_user id s ≡ (value page, t)
    → IsShown m auth_user id s page × (s ≡ t)
unfolding view_invoice page_of
view_invoice-IsShown m f auth_user id s t page h = split_bind _ _ s t page h (λ a s1 e1 h1.
    split_bind _ _ s1 t page h1 (λ user s2 e2 h2. split_bind _ _ s2 t page h2 (λ found s3 e3 h3.
      split_bind _ _ s3 t page h3 (λ invoice s4 e4 h4.
        split_bind _ _ s4 t page h4 (λ found_customer s5 e5 h5.
          split_bind _ _ s5 t page h5 (λ customer s6 e6 h6.
            let (up, same1) = check-inv _ _ s s1 a e1 in
            let (same2, user_found) =
              get_user-inv _ auth_user.email s1 s2 user (map_err-inv _ _ s1 s2 user e2) in
            let (looked, same3) =
              find_row-inv invoice_table _ id s2 s3 found (map_err-inv _ _ s2 s3 found e3) in
            let (is_invoice, same4) = or_return-inv _ _ s3 s4 invoice e4 in
            let (looked', same5) =
              find_row-inv customer_table _ invoice.customer_id s4 s5 found_customer
                (map_err-inv _ _ s4 s5 found_customer e5) in
            let (is_customer, same6) = or_return-inv _ _ s5 s6 customer e6 in
            let to2 = same1 ∙ same2 in
            let to4 = to2 ∙ same3 ∙ same4 in
            subst-pure (λ x u. IsShown m auth_user id s x × (s ≡ u)) _ page s6 t h6
              (
                record {
                  user_stored =
                      ap (λ d. find (has_email auth_user.email) d.users) same1 ∙ user_found;
                  invoice_stored = ap (λ d. lookup invoice_table d id) to2 ∙ looked ∙ is_invoice;
                  customer_stored =
                      ap (λ d. lookup customer_table d invoice.customer_id) to4
                      ∙ looked'
                      ∙ is_customer;
                  subtotal_right = subtotal_shown m user invoice customer;
                  total_right = total_shown m user invoice customer;
                },
                to4 ∙ same5 ∙ same6,
              )))))))
