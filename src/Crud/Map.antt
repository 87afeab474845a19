-- ===== src/Crud/Map.antt =====
-- What a table promises: a map from ids to rows, which the handlers of src/handlers/crud.rs change.
use invoices_contracts.Base.{
  Bool, true, false, ◌||◌, ◌&&◌, List, [], ◌∷◌, Option, none, some, Text, find, ◌==◌, text_eq,
  if◌then◌else◌,
}
use invoices_contracts.Database.{Database}
use invoices_contracts.Crud.{Faults, Table, has_id, create, update_one, delete_one}

-- The requests that change a table.
pub data Change (Payload : Type 0) : Type 0 where
  create_row : Faults → Text → Payload → Change Payload
  update_by_id : Faults → Text → Payload → Change Payload
  delete_by_id : Faults → Text → Change Payload

abbrev pub is_none : {A : Type 0} → Option A → Bool
is_none none = true
is_none (some a) = false

abbrev pub map_option : {A B : Type 0} → (A → B) → Option A → Option B
map_option f none = none
map_option f (some a) = some (f a)

abbrev pub RowMap : Type 0 → Type 0
RowMap Row = Text → Option Row

module _ {Row Payload : Type 0} (t : Table Row Payload) where
  -- The map that a table stands for.
  abbrev pub lookup : Database → RowMap Row
  lookup db i = find (has_id t i) (t.rows db)

  unfoldable pub handle_change : Change Payload → Database → Database
  handle_change (create_row f uuid payload) db = (create t f uuid payload db).1
  handle_change (update_by_id f id payload) db = (update_one t f id payload db).1
  handle_change (delete_by_id f id) db = (delete_one t f id db).1

  unfoldable pub handle_changes : List (Change Payload) → Database → Database
  handle_changes [] db = db
  handle_changes (c ∷ cs) db = handle_changes cs (handle_change c db)

  -- The same of a map.
  unfoldable pub change_map : Change Payload → RowMap Row → RowMap Row
  change_map (create_row f uuid payload) m i =
      if f.connect || f.first
      then m i
      else if is_none (m uuid) && (uuid == i)
      then some (t.row_of uuid payload)
      else m i
  change_map (update_by_id f id payload) m i =
      if f.connect || f.first
      then m i
      else if id == i
      then map_option (t.change payload) (m i)
      else m i
  change_map (delete_by_id f id) m i =
      if f.connect || f.first then m i else if id == i then none else m i

  unfoldable pub change_maps : List (Change Payload) → RowMap Row → RowMap Row
  change_maps [] m = m
  change_maps (c ∷ cs) m = change_maps cs (change_map c m)
