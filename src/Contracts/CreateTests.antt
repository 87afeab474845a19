-- ===== src/Contracts/CreateTests.antt =====
-- The creation of a contract, done and failed, at a small database.
use invoices_contracts.Base.{
  ◌≡◌, ◌+◌, ◌≤◌, refl, true, false, [], ◌∷◌, none, some, ascii, text_beq, find, count,
}
use invoices_contracts.Base.Int.{pos}
use invoices_contracts.Models.{Contract, CreateContractRequest}
use invoices_contracts.Database.{is_contract, slot_of, insert_slot, insert_contract}
use invoices_contracts.Server.{
  Server, Faults, insert_slot_call, done, failed, require, query, ◌>>=◌, internal_server_error,
}
use invoices_contracts.Contracts.World.{world, lease, start}
use invoices_contracts.Contracts.Access.{pending}
use invoices_contracts.Contracts.SlotCounts.{filled_of}
use invoices_contracts.Contracts.Admin.{
  as_i32, check_request, insert_slots, create_transaction, create_contract,
}
use invoices_contracts.Contracts.Create.{create_contract-done, create_contract-failed}

abbrev wish : CreateContractRequest
wish = record {
  customer_id = ascii "u";
  contract_type = ascii "lease";
  title = ascii "flat";
  content = ascii "rent";
  expires_at = none;
  signature_slots =
      record { name = none; order = pos 0 } ∷ (record { name = none; order = pos 1 } ∷ []);
}

abbrev calm : Faults
calm call = false

-- The insertion of a slot fails.
abbrev faulty : Faults
faulty insert_slot_call = true
faulty call = false

made : Server
made = (create_contract world calm (ascii "d") 5 wish start).1

abbrev fresh : Contract
fresh = record lease {
  id = some (ascii "d");
  created_at = ascii "now";
  required_signatures = pos 2;
}

creates : create_contract world calm (ascii "d") 5 wish start ≡ (done fresh, made)
unfolding made create_contract check_request create_transaction insert_slots insert_slot
    insert_contract require query ◌>>=◌ text_beq
creates = refl

create_contract-done_example :
    (1 ≤ 2)
    × (find (is_contract (ascii "d")) made.db.contracts ≡ some fresh)
    × (fresh.status ≡ pending)
    × (fresh.completed_signatures ≡ pos 0)
    × (fresh.required_signatures ≡ as_i32 2)
    × (count (slot_of (ascii "d")) made.db.slots ≡ count (slot_of (ascii "d")) start.db.slots + 2)
    × (count (filled_of (ascii "d")) made.db.slots ≡ count (filled_of (ascii "d")) start.db.slots)
create_contract-done_example =
    create_contract-done world calm (ascii "d") 5 wish start made fresh creates

fails :
    create_contract world faulty (ascii "d") 5 wish start ≡ (failed internal_server_error, start)
unfolding create_contract check_request create_transaction insert_contract require query ◌>>=◌
    text_beq
fails = refl

create_contract-failed_example : start.db ≡ start.db
create_contract-failed_example =
    create_contract-failed world faulty (ascii "d") 5 wish start start internal_server_error fails
