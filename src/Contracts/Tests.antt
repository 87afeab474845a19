-- ===== src/Contracts/Tests.antt =====
-- A signing, a refusal and the verification page at a small database.
use invoices_contracts.Base.{
  ◌≡◌, refl, true, false, [], ◌∷◌, some, Text, ascii, text_eq, text_beq, arith, find, subst, map,
  All, length, ◌<◌,
}
use invoices_contracts.Base.Int.{pos}
use invoices_contracts.RateLimit.Table.{lookup, retain, remove, insert, ip_eq}
use invoices_contracts.RateLimit.{check_rate_limit, record_failed_attempt, reset_attempts}
use invoices_contracts.Crypto.{
  generate_keypair, verify_signature, generate_verification_code, hash_content, generate_final_hash,
}
use invoices_contracts.Crypto
use invoices_contracts.Crypto.Toy.{encode, decode, zeros, length-zeros, zeros-IsBytes, toy-IsLawful}
use invoices_contracts.Models.{Contract, SignContractResponse}
use invoices_contracts.Contracts.SignEffect.{Authorized, authorize-done}
use invoices_contracts.Contracts.Commit.{sign_refused}
use invoices_contracts.Contracts.Pages.{
  ContractProof, shown, verified, verify_contract, final_hash_valid, load_slots_of,
  load_signatures_of, by_order,
}
use invoices_contracts.Contracts.Ready.{sign_contract-runs}
use invoices_contracts.Contracts.Once.{signed_once}
use invoices_contracts.Contracts.Consistent.{hash_of, Agrees, IsConsistent}
use invoices_contracts.Contracts.SignConsistent.{sign_contract-IsConsistent}
use invoices_contracts.Contracts.Verify.{verify_contract-IsConsistent}
use invoices_contracts.Database.{
  is_contract, fill, insert_signature, fill_slot, update_contract_row,
}
use invoices_contracts.Server.{
  Server, done, failed, pure, fail, or_fail, query, require, write, ◌>>=◌, conflict,
}
use invoices_contracts.Contracts.World.{world, lease, holder, slot, start, visit, inputs, ask}
use invoices_contracts.Contracts.Access.{
  signed, verify_customer_uuid, check_limit, settle, settled, authorize,
}
use invoices_contracts.Contracts.Sign.{
  sign_contract, or_internal, open_slot, has_expired, new_signature, hash_all, final_hash,
  insert_new, commit, prepare,
}

abbrev pub answer : SignContractResponse
answer = record {
  success = true;
  verification_code = ascii "ABCD-EFGH-JKLM";
  signed_at = ascii "now";
  progress = record { completed = pos 1; required = pos 1 };
  fully_signed = true;
}

unfoldable pub after : Server
after = (sign_contract world inputs (ascii "c") ask start).1

pub signs : sign_contract world inputs (ascii "c") ask start ≡ (done answer, after)
unfolding after sign_contract or_internal open_slot has_expired new_signature hash_all final_hash
    insert_new commit prepare verify_customer_uuid check_limit settle settled authorize ◌>>=◌ pure
    fail or_fail query require write insert_signature fill_slot update_contract_row text_beq encode
    decode zeros Crypto.sign_contract generate_keypair generate_verification_code hash_content
    generate_final_hash lookup retain remove insert ip_eq check_rate_limit record_failed_attempt
    reset_attempts
signs = refl

pub only_lease :
    (i : Text) (c : Contract)
    → find (is_contract i) start.db.contracts ≡ some c
    → (ascii "c" ≡ i) × (lease ≡ c)
only_lease i c found = ground (arith, text_eq.beq_iff (ascii "c") i)

lease-Agrees : Agrees world start.db.slots start.db.signatures (ascii "c") lease
unfolding text_beq
lease-Agrees = record {
  completed = refl;
  counted = refl;
  required = refl;
  status = refl;
  final_hash = refl;
  genuine = tt;
}

pub start-IsConsistent : IsConsistent world start.db
start-IsConsistent = record {
  slot_ids = (λ k e. refl, tt);
  rows = λ i c found.
      let (same, row) = only_lease i c found in
      subst (λ j. Agrees world start.db.slots start.db.signatures j c) same
        (subst (λ x. Agrees world start.db.slots start.db.signatures (ascii "c") x) row
          lease-Agrees);
}

abbrev pub bound : length start.db.slots < 2147483647
bound = omega arith

sign_contract-IsConsistent_example : IsConsistent world after.db
sign_contract-IsConsistent_example =
    sign_contract-IsConsistent world inputs (ascii "c") ask start after answer toy-IsLawful
      (zeros-IsBytes 32) (length-zeros 32) (λ sigs. refl) bound start-IsConsistent signs

-- Signing again is refused, since the slot is filled.
again : Server
again = (sign_contract world inputs (ascii "c") ask after).1

signs_again : sign_contract world inputs (ascii "c") ask after ≡ (failed conflict, again)
unfolding after sign_contract or_internal open_slot has_expired new_signature hash_all final_hash
    insert_new commit prepare verify_customer_uuid check_limit settle settled authorize ◌>>=◌ pure
    fail or_fail query require write insert_signature fill_slot update_contract_row text_beq encode
    decode zeros Crypto.sign_contract generate_keypair generate_verification_code hash_content
    generate_final_hash lookup retain remove insert ip_eq check_rate_limit record_failed_attempt
    reset_attempts again
signs_again = refl

signed_once_example : ¬ (sign_contract world inputs (ascii "c") ask after ≡ (done answer, again))
signed_once_example =
    signed_once world inputs inputs (ascii "c") (ascii "c") ask ask start after answer signs refl
      answer again

sign_refused_example : again.db ≡ after.db
sign_refused_example =
    sign_refused world inputs (ascii "c") ask after again conflict refl refl signs_again

abbrev pub code : Text
code = ascii "ABCD-EFGH-JKLM"

pub seen : Server
seen = (verify_contract world visit (ascii "c") code (some (ascii "u")) after).1

-- The page after the signing.
abbrev pub proof : ContractProof
proof = record {
  contract_id = ascii "c";
  contract_title = ascii "flat";
  contract_type = ascii "lease";
  contract_customer_id = ascii "u";
  contract_status = signed;
  contract_created_at = ascii "then";
  contract_content = ascii "rent";
  progress_completed = pos 1;
  progress_required = pos 1;
  final_hash = hash_of world (ascii "rent") after.db.signatures;
  verification_code = code;
  fully_signed = true;
  final_hash_valid = true;
  slots = fill slot ∷ [];
  verified_signatures = map (verified world (ascii "c") lease) after.db.signatures;
}

pub verifies :
    verify_contract world visit (ascii "c") code (some (ascii "u")) after
    ≡ (done (shown proof), seen)
unfolding after sign_contract or_internal open_slot has_expired new_signature hash_all final_hash
    insert_new commit prepare verify_customer_uuid check_limit settle settled authorize ◌>>=◌ pure
    fail or_fail query require write insert_signature fill_slot update_contract_row text_beq encode
    decode zeros Crypto.sign_contract generate_keypair generate_verification_code hash_content
    generate_final_hash lookup retain remove insert ip_eq check_rate_limit record_failed_attempt
    reset_attempts seen verify_contract verified verify_signature final_hash_valid load_slots_of
    load_signatures_of by_order
verifies = refl

verify_contract-IsConsistent_example :
    (c : Contract) × (p : ContractProof) × (shown proof ≡ shown p)
    × (find (is_contract (ascii "c")) after.db.contracts ≡ some c)
    × (p.contract_content ≡ c.content)
    × All (λ w. (w.valid ≡ true) × (w.tampered ≡ false)) p.verified_signatures
    × (p.final_hash_valid ≡ p.fully_signed)
verify_contract-IsConsistent_example =
    verify_contract-IsConsistent world visit (ascii "c") code (ascii "u") after seen (shown proof)
      (λ sigs. refl)
      (sign_contract-IsConsistent world inputs (ascii "c") ask start after answer toy-IsLawful
        (zeros-IsBytes 32) (length-zeros 32) (λ sigs. refl) bound start-IsConsistent signs)
      verifies

allowed_in : Server
allowed_in = (authorize world visit (ascii "c") (ascii "u") start).1

authorizes :
    authorize world visit (ascii "c") (ascii "u") start ≡ (done (lease, holder), allowed_in)
unfolding after sign_contract or_internal open_slot has_expired new_signature hash_all final_hash
    insert_new commit prepare verify_customer_uuid check_limit settle settled authorize ◌>>=◌ pure
    fail or_fail query require write insert_signature fill_slot update_contract_row text_beq encode
    decode zeros Crypto.sign_contract generate_keypair generate_verification_code hash_content
    generate_final_hash lookup retain remove insert ip_eq check_rate_limit record_failed_attempt
    reset_attempts allowed_in
authorizes = refl

authorize-done_example : Authorized world (ascii "u") (ascii "c") start.db (lease, holder)
authorize-done_example =
    authorize-done world visit (ascii "c") (ascii "u") start allowed_in (lease, holder) authorizes

sign_contract-runs_example :
    (r : SignContractResponse) × (t : Server) × (sign_contract world inputs (ascii "c") ask start
      ≡ (done r, t))
unfolding check_rate_limit lookup retain text_beq has_expired generate_verification_code
sign_contract-runs_example =
    sign_contract-runs world inputs (ascii "c") ask start lease holder slot code toy-IsLawful
      (zeros-IsBytes 32) (length-zeros 32) (λ call. refl) refl refl refl refl refl refl refl refl
      refl refl refl refl
