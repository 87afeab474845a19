-- ===== src/Contracts/ScheduleTests.antt =====
-- Two requests for one slot: both read it as open, and the first one makes its three writes while
-- the second one waits.
use invoices_contracts.Base.{
  true, subst, ◌==◌, text_eq, ◌≡◌, refl, some, none, [], ascii, arith, text_beq,
}
use invoices_contracts.Base.Int.{pos, leb_ℤ}
use invoices_contracts.Crypto.{
  generate_keypair, generate_verification_code, hash_content, generate_final_hash,
}
use invoices_contracts.Crypto
use invoices_contracts.Crypto.Toy.{encode, decode, zeros}
use invoices_contracts.RateLimit.{check_rate_limit, record_failed_attempt, reset_attempts}
use invoices_contracts.RateLimit.Table.{lookup, retain, remove, insert, ip_eq}
use invoices_contracts.Models.{CreateContractSignature}
use invoices_contracts.Database.{insert_signature, fill_slot, update_contract_row}
use invoices_contracts.Server.{
  Server, done, pure, fail, or_fail, query, require, write, ◌>>=◌, update_slot_call,
  update_contract_call,
}
use invoices_contracts.Contracts.World.{world, lease, start, inputs, ask}
use invoices_contracts.Contracts.Access.{
  verify_customer_uuid, check_limit, settle, settled, authorize, signed,
}
use invoices_contracts.Contracts.Sign.{
  or_internal, open_slot, has_expired, new_signature, hash_all, final_hash, insert_new, prepare,
}
use invoices_contracts.Contracts.Commit.{counted}
use invoices_contracts.Contracts.Interleaved.{
  Signing, answered, planned, inserted, filled, reads, inserts, fills, counts, System, moved, turn,
  Schedule, begin, next,
}
use invoices_contracts.Contracts.Covered.{IsCovered, stored}
use invoices_contracts.Contracts.Tests.{only_lease}
use invoices_contracts.Contracts.Schedules.{alone, Schedule-IsCovered}
use invoices_contracts.Contracts.OneEach.{IsOneEach, Schedule-IsOneEach}

abbrev made : CreateContractSignature
made = record {
  contract_id = ascii "c";
  verification_code = ascii "ABCD-EFGH-JKLM";
  signature_hash = encode (zeros 64);
  public_key = encode (zeros 32);
  content_hash = encode (ascii "rent");
  signed_at = ascii "now";
  signer_name = some (ascii "Ann");
  client_ip = some (ascii "127.0.0.1");
  user_agent = none;
  slot_id = some (pos 1);
}

abbrev signing : Signing
signing = record {
  inputs = inputs;
  id = ascii "c";
  request = ask;
  contract = lease;
  new = made;
  hash = hash_all world (ascii "rent") [] made;
}

first_read : Server
first_read = (prepare world inputs (ascii "c") ask start).1

first_reads :
    prepare world inputs (ascii "c") ask start
    ≡ (done (lease, made, hash_all world (ascii "rent") [] made), first_read)
unfolding first_read or_internal open_slot has_expired new_signature hash_all final_hash prepare
    verify_customer_uuid check_limit settle settled authorize ◌>>=◌ pure fail or_fail query require
    text_beq encode decode zeros Crypto.sign_contract generate_keypair generate_verification_code
    hash_content generate_final_hash lookup retain remove insert ip_eq check_rate_limit
    record_failed_attempt reset_attempts
first_reads = refl

second_read : Server
second_read = (prepare world inputs (ascii "c") ask first_read).1

second_reads :
    prepare world inputs (ascii "c") ask first_read
    ≡ (done (lease, made, hash_all world (ascii "rent") [] made), second_read)
unfolding first_read second_read or_internal open_slot has_expired new_signature hash_all final_hash
    prepare verify_customer_uuid check_limit settle settled authorize ◌>>=◌ pure fail or_fail query
    require text_beq encode decode zeros Crypto.sign_contract generate_keypair
    generate_verification_code hash_content generate_final_hash lookup retain remove insert ip_eq
    check_rate_limit record_failed_attempt reset_attempts
second_reads = refl

with_row : Server
with_row = (insert_new world inputs.visit.faults made second_read).1

stores : insert_new world inputs.visit.faults made second_read ≡ (done tt, with_row)
unfolding with_row first_read second_read or_internal open_slot has_expired new_signature hash_all
    final_hash prepare verify_customer_uuid check_limit settle settled authorize ◌>>=◌ pure fail
    or_fail query require text_beq encode decode zeros Crypto.sign_contract generate_keypair
    generate_verification_code hash_content generate_final_hash lookup retain remove insert ip_eq
    check_rate_limit record_failed_attempt reset_attempts insert_new insert_signature
stores = refl

marked : Server
marked = (write (inputs.visit.faults update_slot_call) (fill_slot (pos 1)) with_row).1

marks :
    write (inputs.visit.faults update_slot_call) (fill_slot (pos 1)) with_row ≡ (done tt, marked)
unfolding marked write
marks = refl

total : Server
total =
    (write (inputs.visit.faults update_contract_call)
      (update_contract_row (ascii "c") (counted world lease signing.hash)) marked).1

totals :
    write
      (inputs.visit.faults update_contract_call)
      (update_contract_row (ascii "c") (counted world lease signing.hash))
      marked
    ≡ (done tt, total)
unfolding total write
totals = refl

abbrev after_all : System
after_all = record {
  server = total;
  pc =
      moved
        (moved
          (moved (moved (moved (alone world start).pc 0 (planned signing)) 1 (planned signing)) 0
            (inserted signing))
          0 (filled signing))
        0 answered;
}

interleaving : Schedule world (alone world start) after_all
interleaving =
    next
      (next
        (next
          (next (next begin (turn 0 (reads signing first_reads)))
            (turn 1 (reads signing second_reads)))
          (turn 0 (inserts signing stores)))
        (turn 0 (fills signing marks)))
      (turn 0 (counts signing totals))

start-IsCovered : IsCovered start.db
unfolding text_beq
start-IsCovered = record {
  completed = λ id c found. ground arith;
  required = λ id c found is_signed.
      subst
        (λ x. (x.status == signed) ≡ true → leb_ℤ x.required_signatures (stored id start.db) ≡ true)
        (only_lease id c found).1 (λ ever. ground arith) is_signed;
}

Schedule-IsCovered_example : IsCovered total.db
Schedule-IsCovered_example =
    Schedule-IsCovered world (alone world start) after_all start-IsCovered (λ n. refl) interleaving

Schedule-IsOneEach_example : IsOneEach total.db.signatures
Schedule-IsOneEach_example =
    Schedule-IsOneEach world (alone world start) after_all interleaving
      (record { of_slot = λ k. omega arith; of_code = λ code. omega arith })
