-- ===== src/Contracts/OverlapTests.antt =====
-- Two signings of a contract with two slots, which have both read it unsigned.
use invoices_contracts.Base.{
  ◌≡◌, ◌+◌, refl, false, [], ◌∷◌, none, some, Text, ascii, text_beq, find, count, if◌then◌else◌,
}
use invoices_contracts.Base.Int.{ℤ, pos, succ_i32}
use invoices_contracts.Models.{Contract, CreateContractSignature}
use invoices_contracts.Database.{
  is_contract, signature_of, insert_signature, fill_slot, update_contract_row,
}
use invoices_contracts.Server.{Server, Faults, done, ◌>>=◌, write}
use invoices_contracts.Contracts.World.{world, lease, start}
use invoices_contracts.Contracts.Access.{pending, signed}
use invoices_contracts.Contracts.Sign.{is_last, insert_new, commit}
use invoices_contracts.Contracts.Overlap.{overlapping_signings}

abbrev calm : Faults
calm call = false

abbrev joint : Contract
joint = record lease { required_signatures = pos 2 }

abbrev desk : Server
desk = record start { db = record start.db { contracts = joint ∷ [] } }

-- A signature of a slot, with a code.
abbrev signature : ℤ → Text → CreateContractSignature
signature slot code = record {
  contract_id = ascii "c";
  verification_code = code;
  signature_hash = code;
  public_key = [];
  content_hash = [];
  signed_at = ascii "now";
  signer_name = none;
  client_ip = none;
  user_agent = none;
  slot_id = some slot;
}

half : Server
half = (commit world calm (ascii "c") (pos 1) joint (signature (pos 1) (ascii "A")) none desk).1

both : Server
both = (commit world calm (ascii "c") (pos 2) joint (signature (pos 2) (ascii "B")) none half).1

first_commits :
    commit world calm (ascii "c") (pos 1) joint (signature (pos 1) (ascii "A")) none desk
    ≡ (done tt, half)
unfolding half commit insert_new insert_signature fill_slot update_contract_row write ◌>>=◌ text_beq
first_commits = refl

second_commits :
    commit world calm (ascii "c") (pos 2) joint (signature (pos 2) (ascii "B")) none half
    ≡ (done tt, both)
unfolding half both commit insert_new insert_signature fill_slot update_contract_row write ◌>>=◌
    text_beq
second_commits = refl

overlapping_signings_example :
    (count (signature_of (ascii "c")) both.db.signatures
      ≡ 2 + count (signature_of (ascii "c")) desk.db.signatures)
    × ((c : Contract) × (find (is_contract (ascii "c")) both.db.contracts ≡ some c)
        × (c.completed_signatures ≡ succ_i32 joint.completed_signatures)
        × (c.status ≡ (if is_last world joint then signed else pending)))
unfolding text_beq
overlapping_signings_example =
    overlapping_signings world calm calm (ascii "c") (pos 1) (pos 2) joint
      (signature (pos 1) (ascii "A")) (signature (pos 2) (ascii "B")) none none desk half both tt tt
      refl refl refl first_commits second_commits
