-- ===== src/Crud/Tests.antt =====
-- A customer that is created, changed and deleted.
use invoices_contracts.Base.{◌≡◌, false, true, List, [], ◌∷◌, none, some, ascii}
use invoices_contracts.Models.{CustomerPayload}
use invoices_contracts.Contracts.World.{start}
use invoices_contracts.Crud.{Faults}
use invoices_contracts.Crud.Map.{
  Change, create_row, update_by_id, delete_by_id, lookup, handle_changes, change_maps,
}
use invoices_contracts.Crud.Tables.{customer_table}
use invoices_contracts.Crud.Lawful.{customer_table-IsTable}
use invoices_contracts.Crud.Refines.{handle_changes-change_maps}

abbrev calm : Faults
calm = record { connect = false; first = false; second = false }

-- The row is changed, but cannot be read.
abbrev blind : Faults
blind = record { connect = false; first = false; second = true }

abbrev eve : CustomerPayload
eve = record {
  id = none;
  name = ascii "Eve";
  address = some (ascii "E");
  currency = none;
  is_active = none;
}

abbrev changes : List (Change CustomerPayload)
changes =
    create_row calm (ascii "e") eve
    ∷ (update_by_id blind (ascii "u") eve
        ∷ (create_row calm (ascii "e") eve ∷ (delete_by_id calm (ascii "e") ∷ [])))

handle_changes-change_maps_example :
    lookup customer_table (handle_changes customer_table changes start.db)
    ≡ change_maps customer_table changes (lookup customer_table start.db)
handle_changes-change_maps_example =
    handle_changes-change_maps customer_table customer_table-IsTable changes start.db
