-- ===== src/Crud/Rows.antt =====
-- src/handlers/crud.rs: the rows that the handlers leave.
use invoices_contracts.Base.{
  ◌≡◌, refl, ap, ◌∙◌, Bool, true, false, not, ◌||◌, Bool-cases, inl, inr, List, [], ◌∷◌, ◌++◌, none,
  some, arith, Text, ◌==◌, text_eq, option_eq, eq_of_==, any, filter, update, if◌then◌else◌,
}
use invoices_contracts.Database.{Database}
use invoices_contracts.Program.{pure, or_return, ◌>>=◌, map_err}
use invoices_contracts.Server.{StatusCode, internal_server_error, not_found}
use invoices_contracts.Program.Rules.{Preserves, preserves_rules}
use invoices_contracts.Crud.{
  Faults, Table, query, connection, has_id, insert, execute_update, find_row, update_row, delete,
  create, update_one, delete_one,
}

abbrev pub faults : Bool → Bool → Bool → Faults
faults c a b = record { connect = c; first = a; second = b }

pub faults_eta : (f : Faults) → faults f.connect f.first f.second ≡ f
faults_eta f = ground arith

-- What the implementation of a table owes.
pub record IsTable {Row Payload : Type 0} (t : Table Row Payload) : Type 0 where
  pub rows-with_rows : (rows : List Row) (db : Database) → t.rows (t.with_rows rows db) ≡ rows
  pub key-row_of : (uuid : Text) (payload : Payload) → t.key (t.row_of uuid payload) ≡ some uuid
  pub key-change : (payload : Payload) (r : Row) → t.key (t.change payload r) ≡ t.key r

module _ {Row Payload : Type 0} (t : Table Row Payload) (laws : IsTable t) where
  pub one_key :
      (i j : Text) → (i == j) ≡ false → (r : Row) → has_id t i r ≡ true → has_id t j r ≡ false
  one_key i j differ r here = ap (λ k. k == some j) (eq_of_== (t.key r) (some i) here) ∙ differ

  pub create-rows_of :
      (c a b : Bool) (uuid : Text) (payload : Payload) (db : Database)
      → t.rows (create t (faults c a b) uuid payload db).1 ≡ (
          if c || a
          then t.rows db
          else if any (has_id t uuid) (t.rows db)
          then t.rows db
          else t.rows db ++ t.row_of uuid payload ∷ [])
  unfolding create connection insert query map_err ◌>>=◌
  create-rows_of true a b uuid payload db = refl
  create-rows_of false true b uuid payload db = refl
  create-rows_of false false b uuid payload db =
      elim (Bool-cases (any (has_id t uuid) (t.rows db))) [
        | inl taken ↦ ground arith
        | inr free ↦
            ground (arith, laws.rows-with_rows (t.rows db ++ t.row_of uuid payload ∷ []) db)
      ]

  -- The second query of an update reads.
  find_row-Preserves :
      (P : Database → Type 0) (b : Bool) (id : Text) → Preserves P (find_row t b id)
  unfolding find_row query
  find_row-Preserves P true id = record { kept = λ s h. h }
  find_row-Preserves P false id = record { kept = λ s h. h }

  answer-Preserves :
      (P : Database → Type 0) (updated b : Bool) (id : Text)
      → Preserves P (
          map_err {F = StatusCode}
            (λ e. internal_server_error)
            (if updated then find_row t b id else pure none)
          >>= λ found. or_return not_found found)
  answer-Preserves P updated b id = search (preserves_rules, find_row-Preserves) depth 10

  after :
      (updated b : Bool) (id : Text) (db : Database) (rows : List Row)
      → t.rows db ≡ rows
      → t.rows
          ((map_err (λ e. internal_server_error) (if updated then find_row t b id else pure none)
              >>= λ found. or_return not_found found)
            db).1
        ≡ rows
  after updated b id db rows e = (answer-Preserves (λ d. t.rows d ≡ rows) updated b id).kept db e

  pub update-rows_of :
      (c a b : Bool) (id : Text) (payload : Payload) (db : Database)
      → t.rows (update_one t (faults c a b) id payload db).1
        ≡ (if c || a then t.rows db else update (has_id t id) (t.change payload) (t.rows db))
  unfolding update_one connection update_row execute_update find_row query map_err ◌>>=◌
  update-rows_of true a b id payload db = refl
  update-rows_of false true b id payload db = refl
  update-rows_of false false b id payload db =
      let rows = laws.rows-with_rows (update (has_id t id) (t.change payload) (t.rows db)) db in
      after (any (has_id t id) (t.rows db)) b id _ _ rows

  pub delete-rows_of :
      (c a b : Bool) (id : Text) (db : Database)
      → t.rows (delete_one t (faults c a b) id db).1
        ≡ (if c || a then t.rows db else filter (λ r. not (has_id t id r)) (t.rows db))
  unfolding delete_one connection delete query map_err ◌>>=◌
  delete-rows_of true a b id db = refl
  delete-rows_of false true b id db = refl
  delete-rows_of false false b id db = laws.rows-with_rows _ db
