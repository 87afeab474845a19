-- ===== src/Invoices.antt =====
-- src/models.rs and src/main.rs: the amounts of invoices, and the page of an invoice. The crates
-- rust_decimal and serde_json are parameters, as is `str::trim`.
pub mod Page
pub mod Totals
pub mod Shown
pub mod Tests
use invoices_contracts.Base.{
  ℕ, zero, suc, ◌-◌, Bool, true, false, not, List, [], ◌∷◌, ◌++◌, Option, none, some, Text, ascii,
  ◌==◌, text_eq, length, if◌then◌else◌,
}
use invoices_contracts.Models.{User, Customer, Invoice}
use invoices_contracts.Database.{Database}
use invoices_contracts.Server.{StatusCode, not_found, internal_server_error}
use invoices_contracts.Program.{Try, value, stop, Program, pure, or_return, ◌>>=◌, ◌>>◌, map_err}
use invoices_contracts.Auth.Config.{starts_with}
use invoices_contracts.Auth.Store.{Condition, get_user_by_email}
use invoices_contracts.Auth.Cookies.{AuthUser, push_first}
use invoices_contracts.Crud.{find_row}
use invoices_contracts.Crud.Tables.{customer_table, invoice_table}

-- Decimals `D`, JSON values `V`, floating point numbers `F`, and what the code calls of them.
pub record Amounts (D V F : Type 0) : Type 0 where
  pub zero : D
  pub hundred : D
  pub add : D → D → D
  pub subtract : D → D → D
  pub times : D → D → D
  pub less : D → D → Bool
  pub from_str_exact : Text → Option D
  pub try_from : F → Option D
  pub percent : D → Text
  pub parse_map : Text → Option (List (Text × V))
  pub as_f64 : V → Option F
  pub trim : Text → Text

unfoldable pub filter_map {ℓ κ} : {A : Type ℓ} {B : Type κ} → (A → Option B) → List A → List B
filter_map f [] = []
filter_map f (x ∷ xs) = let rest = filter_map f xs in elim (f x) [ none ↦ rest | some b ↦ b ∷ rest ]

abbrev pub map_list {ℓ κ} : {A : Type ℓ} {B : Type κ} → (A → B) → List A → List B
map_list f [] = []
map_list f (x ∷ xs) = f x ∷ map_list f xs

abbrev pub and_then {ℓ κ} : {A : Type ℓ} {B : Type κ} → (A → Option B) → Option A → Option B
and_then f none = none
and_then f (some a) = f a

-- `text.split(sep)`, where `skip` bytes of a separator are still to come.
unfoldable pub split_at : Text → ℕ → Text → List Text
unfolding starts_with
split_at sep skip [] = [] ∷ []
split_at sep (suc skip) (c ∷ text) = split_at sep skip text
split_at sep zero (c ∷ text) =
    let inside = split_at sep (length sep - 1) text in
    let outside = split_at sep zero text in
    if starts_with sep (c ∷ text) then [] ∷ inside else push_first c outside

module _ {D V F : Type 0} (m : Amounts D V F) where
  -- `sum()`
  unfoldable pub sum_from : D → List D → D
  sum_from total [] = total
  sum_from total (x ∷ xs) = sum_from (m.add total x) xs

  abbrev pub sum : List D → D
  sum xs = sum_from m.zero xs

  unfoldable pub payment_made_decimal : Invoice → Option D
  payment_made_decimal i = and_then m.from_str_exact i.payment_made

  -- The amounts of a JSON object, or zero where there is none.
  abbrev pub sum_of : (D → D) → Option Text → D
  sum_of f json = elim (and_then m.parse_map json) [
    | none ↦ m.zero
    | some entries ↦
        sum (map_list f (filter_map m.try_from (filter_map m.as_f64 (map_list (λ e. e.1) entries))))
  ]

  unfoldable pub compute_subtotal : Invoice → D
  compute_subtotal i = sum_of (λ d. d) i.line_charges

  unfoldable pub compute_total : Invoice → D
  compute_total i =
      m.add (compute_subtotal i)
        (sum_of (λ percentage. m.times (compute_subtotal i) percentage) i.after_line_items)
