-- ===== src/Contracts/TamperedTests.antt =====
-- The rent of the small server's contract is raised after it was signed.
use invoices_contracts.Base.{
  ◌≡◌, refl, true, false, map, none, some, arith, ascii, text_beq, All, find,
}
use invoices_contracts.Base.Int.{pos}
use invoices_contracts.Crypto.{
  verify_signature, generate_keypair, generate_verification_code, hash_content, generate_final_hash,
}
use invoices_contracts.Crypto
use invoices_contracts.Crypto.Toy.{
  toy, encode, decode, zeros, toy-IsLawful, zeros-IsBytes, length-zeros,
}
use invoices_contracts.RateLimit.{check_rate_limit, record_failed_attempt, reset_attempts}
use invoices_contracts.RateLimit.Table.{lookup, retain, remove, insert, ip_eq}
use invoices_contracts.Models.{Contract, ContractPayload}
use invoices_contracts.Database.{is_contract, insert_signature, fill_slot, update_contract_row}
use invoices_contracts.Server.{
  Server, Faults, done, pure, fail, or_fail, query, require, write, ◌>>=◌,
}
use invoices_contracts.Contracts.World.{world, lease, start, visit, inputs, ask}
use invoices_contracts.Contracts.Access.{
  signed, verify_customer_uuid, check_limit, settle, settled, authorize,
}
use invoices_contracts.Contracts.Sign.{
  sign_contract, or_internal, open_slot, has_expired, new_signature, hash_all, final_hash,
  insert_new, commit, prepare,
}
use invoices_contracts.Contracts.Pages.{
  ContractProof, shown, verified, final_hash_valid, load_slots_of, load_signatures_of, by_order,
  verify_contract,
}
use invoices_contracts.Contracts.Admin.{apply_changes, update_contract}
use invoices_contracts.Contracts.SignConsistent.{sign_contract-IsConsistent}
use invoices_contracts.Contracts.Tests.{
  after, answer, signs, start-IsConsistent, bound, proof, code,
}
use invoices_contracts.Contracts.Tampered.{changed_content-tampered}

abbrev raised : ContractPayload
raised = record {
  id = none;
  customer_id = ascii "u";
  contract_type = ascii "lease";
  title = ascii "flat";
  content = ascii "higher rent";
  created_at = ascii "then";
  expires_at = none;
  status = signed;
  required_signatures = pos 1;
  completed_signatures = pos 1;
  final_hash = none;
}

abbrev calm : Faults
calm call = false

abbrev dear_lease : Contract
dear_lease = record lease {
  content = ascii "higher rent";
  status = signed;
  completed_signatures = pos 1;
  final_hash = proof.final_hash;
}

changed : Server
changed = (update_contract calm (ascii "c") raised after).1

changes : update_contract calm (ascii "c") raised after ≡ (done dear_lease, changed)
unfolding after sign_contract or_internal open_slot has_expired new_signature hash_all final_hash
    insert_new commit prepare verify_customer_uuid check_limit settle settled authorize ◌>>=◌ pure
    fail or_fail query require write insert_signature fill_slot update_contract_row text_beq encode
    decode zeros Crypto.sign_contract generate_keypair generate_verification_code hash_content
    generate_final_hash lookup retain remove insert ip_eq check_rate_limit record_failed_attempt
    reset_attempts changed update_contract apply_changes
changes = refl

seen : Server
seen = (verify_contract world visit (ascii "c") code (some (ascii "u")) changed).1

abbrev dear_proof : ContractProof
dear_proof = record proof {
  contract_content = ascii "higher rent";
  final_hash_valid = false;
  verified_signatures = map (verified world (ascii "c") dear_lease) after.db.signatures;
}

shows :
    verify_contract world visit (ascii "c") code (some (ascii "u")) changed
    ≡ (done (shown dear_proof), seen)
unfolding after sign_contract or_internal open_slot has_expired new_signature hash_all final_hash
    insert_new commit prepare verify_customer_uuid check_limit settle settled authorize ◌>>=◌ pure
    fail or_fail query require write insert_signature fill_slot update_contract_row text_beq encode
    decode zeros Crypto.sign_contract generate_keypair generate_verification_code hash_content
    generate_final_hash lookup retain remove insert ip_eq check_rate_limit record_failed_attempt
    reset_attempts changed update_contract apply_changes seen verify_contract verified
    verify_signature final_hash_valid load_slots_of load_signatures_of by_order
shows = refl

old_lease : Contract
old_lease = record lease {
  status = signed;
  completed_signatures = pos 1;
  final_hash = proof.final_hash;
}

signed_lease : find (is_contract (ascii "c")) after.db.contracts ≡ some old_lease
unfolding old_lease after sign_contract or_internal open_slot has_expired new_signature hash_all
    final_hash insert_new commit prepare verify_customer_uuid check_limit settle settled authorize
    ◌>>=◌ pure fail or_fail query require write insert_signature fill_slot update_contract_row
    text_beq encode decode zeros Crypto.sign_contract generate_keypair generate_verification_code
    hash_content generate_final_hash lookup retain remove insert ip_eq check_rate_limit
    record_failed_attempt reset_attempts
signed_lease = refl

other_hash : ¬ (hash_content toy (ascii "higher rent") ≡ hash_content toy (ascii "rent"))
unfolding hash_content encode
other_hash e = ground arith

changed_content-tampered_example :
    (p : ContractProof) × (shown dear_proof ≡ shown p)
    × (p.contract_content ≡ ascii "higher rent")
    × All (λ w. (w.valid ≡ true) × (w.tampered ≡ true)) p.verified_signatures
unfolding old_lease
changed_content-tampered_example =
    changed_content-tampered world calm (ascii "c") code (ascii "u") raised after changed seen
      old_lease dear_lease visit (shown dear_proof) (λ sigs. refl)
      (sign_contract-IsConsistent world inputs (ascii "c") ask start after answer toy-IsLawful
        (zeros-IsBytes 32) (length-zeros 32) (λ sigs. refl) bound start-IsConsistent signs)
      signed_lease other_hash changes shows
