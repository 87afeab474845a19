-- ===== src/Contracts/World.antt =====
-- A small database with one contract of one slot, and the outside that its tests run with.
use invoices_contracts.Base.{true, false, not, [], ◌∷◌, none, some, ascii, ◌==◌, text_eq}
use invoices_contracts.Base.Int.{pos}
use invoices_contracts.RateLimit.Table.{v4}
use invoices_contracts.RateLimit.{new}
use invoices_contracts.Crypto.Toy.{toy, seed}
use invoices_contracts.Models.{Contract, Customer, ContractSignatureSlot, SignContractRequest}
use invoices_contracts.Server.{Server}
use invoices_contracts.Contracts.Access.{Externals, Visit, pending}
use invoices_contracts.Contracts.Sign.{SignInputs}

abbrev pub world : Externals
world = record {
  crypto = toy;
  is_valid_uuid = λ t. not (t == []);
  parse_rfc3339 = λ t. none;
  to_rfc3339 = λ t. ascii "now";
  foreign_keys = true;
  ip_to_string = λ ip. ascii "127.0.0.1";
  arrange = λ l. l;
}

abbrev pub holder : Customer
holder = record {
  id = some (ascii "u");
  name = ascii "Ann";
  address = none;
  currency = none;
  is_active = some true;
}

abbrev pub lease : Contract
lease = record {
  id = some (ascii "c");
  customer_id = ascii "u";
  contract_type = ascii "lease";
  title = ascii "flat";
  content = ascii "rent";
  created_at = ascii "then";
  expires_at = none;
  status = pending;
  required_signatures = pos 1;
  completed_signatures = pos 0;
  final_hash = none;
}

abbrev pub slot : ContractSignatureSlot
slot = record {
  id = some (pos 1);
  contract_id = ascii "c";
  slot_name = none;
  slot_order = pos 0;
  is_filled = false;
}

abbrev pub start : Server
start = record {
  db = record {
    customers = holder ∷ [];
    contracts = lease ∷ [];
    slots = slot ∷ [];
    signatures = [];
    next_slot = 2;
    next_signature = 1;
    invoices = [];
    users = [];
    jwt_tokens = [];
    refresh_tokens = [];
    next_user = 1;
    next_jwt = 1;
    next_refresh = 1;
  };
  limiter = new;
}

abbrev pub visit : Visit
visit = record { client_ip = v4 1; check_at = 1; failed_at = 2; faults = λ call. false }

abbrev pub inputs : SignInputs
inputs = record {
  visit = visit;
  expiry_at = 3;
  signed_at = 4;
  seed = seed;
  draw = λ i. i;
  user_agent = none;
}

abbrev pub ask : SignContractRequest
ask = record {
  customer_uuid = ascii "u";
  slot_id = pos 1;
  signer_name = some (ascii "Ann");
  accepted = true;
}
