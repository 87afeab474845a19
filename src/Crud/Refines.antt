-- ===== src/Crud/Refines.antt =====
-- src/handlers/crud.rs: the tables against their maps.
use invoices_contracts.Base.{
  ◌≡◌, refl, sym, ap, subst, ◌∙◌, Bool, true, false, not, ◌||◌, ◌&&◌, Bool-cases, inl, inr, List,
  [], ◌∷◌, ◌++◌, none, some, arith, Text, ◌==◌, text_eq, option_eq, eq_of_==, any, find, filter,
  update, if◌then◌else◌,
}
use invoices_contracts.Database.{Database}
use invoices_contracts.Crud.{Table, has_id, create, update_one, delete_one}
use invoices_contracts.Crud.Finds.{
  find-append, any-is_none, find-update_same, find-update_other, find-filter_same,
  find-filter_other,
}
use invoices_contracts.Crud.Map.{
  Change, create_row, update_by_id, delete_by_id, is_none, map_option, lookup, handle_change,
  handle_changes, change_map, change_maps,
}
use invoices_contracts.Crud.Rows.{
  IsTable, faults, faults_eta, one_key, create-rows_of, update-rows_of, delete-rows_of,
}

module _ {Row Payload : Type 0} (t : Table Row Payload) (laws : IsTable t) where
  changed_key :
      (payload : Payload) (i : Text) (r : Row) → has_id t i (t.change payload r) ≡ has_id t i r
  changed_key payload i r = ap (λ k. k == some i) (laws.key-change payload r)

  deleted-lookup :
      (id i : Text) (rs : List Row)
      → find (has_id t i) (filter (λ r. not (has_id t id r)) rs)
        ≡ (if id == i then none else find (has_id t i) rs)
  deleted-lookup id i rs = elim (Bool-cases (id == i)) [
    | inl same ↦
        subst (λ j. find (has_id t j) (filter (λ r. not (has_id t id r)) rs) ≡ none)
          (eq_of_== id i same) (find-filter_same (has_id t id) rs)
        ∙ sym (ap (λ x. if x then none else find (has_id t i) rs) same)
    | inr other ↦
        find-filter_other (has_id t id) (has_id t i) rs (one_key t laws id i other)
        ∙ sym (ap (λ x. if x then none else find (has_id t i) rs) other)
  ]

  updated-lookup :
      (id i : Text) (payload : Payload) (rs : List Row)
      → find (has_id t i) (update (has_id t id) (t.change payload) rs) ≡ (
          if id == i
          then map_option (t.change payload) (find (has_id t i) rs)
          else find (has_id t i) rs)
  updated-lookup id i payload rs = elim (Bool-cases (id == i)) [
    | inl same ↦
        subst
          (λ j.
            find (has_id t j) (update (has_id t id) (t.change payload) rs)
            ≡ map_option (t.change payload) (find (has_id t j) rs))
          (eq_of_== id i same)
          (find-update_same (has_id t id) (t.change payload) rs (changed_key payload id))
        ∙ sym (
            ap
              (λ x.
                if x
                then map_option (t.change payload) (find (has_id t i) rs)
                else find (has_id t i) rs)
              same)
    | inr other ↦
        find-update_other (has_id t id) (has_id t i) (t.change payload) rs (changed_key payload i)
          (one_key t laws id i other)
        ∙ sym (
            ap
              (λ x.
                if x
                then map_option (t.change payload) (find (has_id t i) rs)
                else find (has_id t i) rs)
              other)
  ]

  created-lookup :
      (uuid i : Text) (payload : Payload) (rs : List Row)
      → find (has_id t i) (if any (has_id t uuid) rs then rs else rs ++ t.row_of uuid payload ∷ [])
        ≡ (if is_none (find (has_id t uuid) rs) && (uuid == i)
            then some (t.row_of uuid payload)
            else find (has_id t i) rs)
  created-lookup uuid i payload rs =
      let none_there = any-is_none (has_id t uuid) rs in
      let new_key : has_id t i (t.row_of uuid payload) ≡ (uuid == i) =
        ap (λ k. k == some i) (laws.key-row_of uuid payload) in
      let added = find-append (has_id t i) rs (t.row_of uuid payload) in
      elim (Bool-cases (any (has_id t uuid) rs)) [
        | inl taken ↦ ground (arith, none_there)
        | inr free ↦ elim (Bool-cases (uuid == i)) [
          | inl same ↦
              let equal : is_none (find (has_id t uuid) rs) ≡ is_none (find (has_id t i) rs) =
                ap (λ j. is_none (find (has_id t j) rs)) (eq_of_== uuid i same) in
              ground (arith, none_there, new_key, added, equal)
          | inr other ↦ ground (arith, none_there, new_key, added)
        ]
      ]

  -- The rows that a change leaves, read by id.
  create-lookup :
      (c a b : Bool) (uuid : Text) (payload : Payload) (db : Database) (i : Text)
      → lookup t (create t (faults c a b) uuid payload db).1 i
        ≡ change_map t (create_row (faults c a b) uuid payload) (lookup t db) i
  unfolding change_map
  create-lookup c a b uuid payload db i =
      ap (find (has_id t i)) (create-rows_of t laws c a b uuid payload db) ∙ go c a
    where
      go :
          (c a : Bool)
          → find (has_id t i) (
              if c || a
              then t.rows db
              else if any (has_id t uuid) (t.rows db)
              then t.rows db
              else t.rows db ++ t.row_of uuid payload ∷ [])
            ≡ (if c || a
                then lookup t db i
                else if is_none (lookup t db uuid) && (uuid == i)
                then some (t.row_of uuid payload)
                else lookup t db i)
      go true a = refl
      go false true = refl
      go false false = created-lookup uuid i payload (t.rows db)

  update-lookup :
      (c a b : Bool) (id : Text) (payload : Payload) (db : Database) (i : Text)
      → lookup t (update_one t (faults c a b) id payload db).1 i
        ≡ change_map t (update_by_id (faults c a b) id payload) (lookup t db) i
  unfolding change_map
  update-lookup c a b id payload db i =
      ap (find (has_id t i)) (update-rows_of t laws c a b id payload db) ∙ go c a
    where
      go :
          (c a : Bool)
          → find
              (has_id t i)
              (if c || a then t.rows db else update (has_id t id) (t.change payload) (t.rows db))
            ≡ (if c || a
                then lookup t db i
                else if id == i
                then map_option (t.change payload) (lookup t db i)
                else lookup t db i)
      go true a = refl
      go false true = refl
      go false false = updated-lookup id i payload (t.rows db)

  delete-lookup :
      (c a b : Bool) (id : Text) (db : Database) (i : Text)
      → lookup t (delete_one t (faults c a b) id db).1 i
        ≡ change_map t (delete_by_id (faults c a b) id) (lookup t db) i
  unfolding change_map
  delete-lookup c a b id db i = ap (find (has_id t i)) (delete-rows_of t laws c a b id db) ∙ go c a
    where
      go :
          (c a : Bool)
          → find
              (has_id t i)
              (if c || a then t.rows db else filter (λ r. not (has_id t id r)) (t.rows db))
            ≡ (if c || a then lookup t db i else if id == i then none else lookup t db i)
      go true a = refl
      go false true = refl
      go false false = deleted-lookup id i (t.rows db)

  handle_change-lookup :
      (c : Change Payload) (db : Database) (i : Text)
      → lookup t (handle_change t c db) i ≡ change_map t c (lookup t db) i
  unfolding handle_change
  handle_change-lookup (create_row f uuid payload) db i =
      subst
        (λ g.
          lookup t (create t g uuid payload db).1 i
          ≡ change_map t (create_row g uuid payload) (lookup t db) i)
        (faults_eta f) (create-lookup f.connect f.first f.second uuid payload db i)
  handle_change-lookup (update_by_id f id payload) db i =
      subst
        (λ g.
          lookup t (update_one t g id payload db).1 i
          ≡ change_map t (update_by_id g id payload) (lookup t db) i)
        (faults_eta f) (update-lookup f.connect f.first f.second id payload db i)
  handle_change-lookup (delete_by_id f id) db i =
      subst
        (λ g.
          lookup t (delete_one t g id db).1 i ≡ change_map t (delete_by_id g id) (lookup t db) i)
        (faults_eta f) (delete-lookup f.connect f.first f.second id db i)

  -- Under any sequence of creations, updates and deletions, with any faults of the database, a
  -- table of the CRUD routes is the map from ids to rows that the same sequence makes of it: a
  -- fault of the connection or of the first query and a taken id change nothing, a fault of the
  -- second query does not undo an update. The table keeps keys as the implementations do.
  pub handle_changes-change_maps :
      (cs : List (Change Payload)) (db : Database)
      → lookup t (handle_changes t cs db) ≡ change_maps t cs (lookup t db)
  unfolding handle_changes change_maps
  handle_changes-change_maps [] db = refl
  handle_changes-change_maps (c ∷ cs) db =
      handle_changes-change_maps cs (handle_change t c db)
      ∙ ap (change_maps t cs) (λ j i. handle_change-lookup c db i j)
