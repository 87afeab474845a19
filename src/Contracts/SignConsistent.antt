-- ===== src/Contracts/SignConsistent.antt =====
-- src/handlers/contracts.rs: `sign_contract` and the invariant of the contract tables.
use invoices_contracts.Base.{
  suc, ◌<◌, ◌≡◌, refl, sym, ap, ap₂, ◌∙◌, subst, Bool, false, List, [], ◌∷◌, ◌++◌, Option, none,
  some, arith, Text, ◌==◌, text_eq, option_eq, option_beq_iff, eq_of_==, Bool-cases, inl, inr, leb,
  find, count, count-append, filter, filter-append, update, length, All-append, if◌then◌else◌,
  append-nil, map-append,
}
use invoices_contracts.Base.Int.{pos, succ_i32}
use invoices_contracts.Crypto.{IsLawful, IsBytes, hash_content}
use invoices_contracts.Crypto.Signatures.{verify-sign}
use invoices_contracts.Models.{
  Contract, ContractSignature, CreateContractSignature, ContractSignatureSlot, SignContractRequest,
  SignContractResponse,
}
use invoices_contracts.Database.{
  Database, is_contract, is_slot, slot_of, signature_of, signature_row, fill, insert_signature,
  fill_slot, update_contract_row,
}
use invoices_contracts.Server.{Server, done}
use invoices_contracts.Contracts.Access.{Externals, pending, signed}
use invoices_contracts.Contracts.Sign.{SignInputs, is_last, hash_all, sign_contract}
use invoices_contracts.Contracts.SignEffect.{Planned}
use invoices_contracts.Contracts.Commit.{counted, after_commit, sign-done}
use invoices_contracts.Contracts.SlotCounts.{
  filled_of, slot_of-fill, fill-Distinct, fill-count, filled-le-slots, slots-le-length,
}
use invoices_contracts.Contracts.Consistent.{hash_of, IsGenuine, Agrees, IsConsistent}

abbrev pub changed_if : Bool → (Contract → Contract) → Option Contract → Option Contract
changed_if b f none = none
changed_if b f (some c) = if b then some (f c) else some c

pub find-update :
    (k i : Text) (f : Contract → Contract) (cs : List Contract)
    → ((c : Contract) → (f c).id ≡ c.id)
    → find (is_contract i) (update (is_contract k) f cs)
      ≡ changed_if (k == i) f (find (is_contract i) cs)
find-update k i f [] keep = refl
find-update k i f (c ∷ cs) keep = ground (
  arith,
  keep c,
  find-update k i f cs keep,
  option_beq_iff c.id (some i),
  option_beq_iff c.id (some k),
  text_eq.beq_iff k i,
)

pub inserted-eq :
    (new : CreateContractSignature) (db db' : Database)
    → insert_signature new db ≡ some db'
    → db' ≡ record db {
      signatures = db.signatures ++ signature_row db.next_signature new ∷ [];
      next_signature = suc db.next_signature;
    }
unfolding insert_signature
inserted-eq new db db' e = ground arith

module _ (ext : Externals) (db : Database) (i : SignInputs) (id : Text)
    (request : SignContractRequest) (c : Contract) (new : CreateContractSignature)
    (hash : Option Text) (pl : Planned ext i id request db c new hash) (v : IsConsistent ext db)
    (small : length db.slots < 2147483647) where
  abbrev row : ContractSignature
  row = signature_row db.next_signature new

  abbrev slots' : List ContractSignatureSlot
  slots' = update (is_slot request.slot_id) fill db.slots

  abbrev sigs' : List ContractSignature
  sigs' = db.signatures ++ row ∷ []

  now_filled :
      (j : Text)
      → count (filled_of j) slots'
        ≡ (if id == j then suc (count (filled_of j) db.slots) else count (filled_of j) db.slots)
  now_filled j =
      fill-count request.slot_id id j pl.slot db.slots v.slot_ids pl.slot_found pl.slot_open

  row_of : (j : Text) → signature_of j row ≡ (id == j)
  row_of j = ap (λ x. x == j) pl.new_contract

  now_counted :
      (j : Text)
      → count (signature_of j) sigs' ≡ (
          if id == j
          then suc (count (signature_of j) db.signatures)
          else count (signature_of j) db.signatures)
  now_counted j = ground (arith, row_of j, count-append (signature_of j) db.signatures (row ∷ []))

  now_listed :
      (j : Text)
      → filter (signature_of j) sigs' ≡ (
          if id == j
          then filter (signature_of j) db.signatures ++ row ∷ []
          else filter (signature_of j) db.signatures)
  now_listed j = ground (
    arith,
    row_of j,
    filter-append (signature_of j) db.signatures (row ∷ []),
    append-nil (filter (signature_of j) db.signatures),
  )

  -- Contracts other than the one that is signed.
  other :
      (j : Text) (c' : Contract)
      → (id == j) ≡ false
      → Agrees ext db.slots db.signatures j c'
      → Agrees ext slots' sigs' j c'
  other j c' differ a =
      let filled : count (filled_of j) slots' ≡ count (filled_of j) db.slots =
        ground (arith, now_filled j) in
      let slots = slot_of-fill j request.slot_id db.slots in
      let listed : filter (signature_of j) sigs' ≡ filter (signature_of j) db.signatures =
        ground (arith, now_listed j) in
      record {
        completed = a.completed ∙ ap pos (sym filled);
        counted = ground (arith, now_counted j, filled, a.counted);
        required = a.required ∙ ap pos (sym slots);
        status = rw (filled, slots) a.status;
        final_hash = rw (filled, slots, listed) a.final_hash;
        genuine =
            All-append (IsGenuine ext j c') db.signatures (row ∷ []) a.genuine
              (λ mine. absurd (ground (arith, row_of j)), tt);
      }

  before : Agrees ext db.slots db.signatures id c
  before = v.rows id c pl.contract_found

  now_one_more : count (filled_of id) slots' ≡ suc (count (filled_of id) db.slots)
  now_one_more = ground (arith, now_filled id, text_eq.beq_iff id id)

  now_completed : succ_i32 c.completed_signatures ≡ pos (suc (count (filled_of id) db.slots))
  now_completed =
      ground (arith, before.completed, filled-le-slots id db.slots, slots-le-length id db.slots)

  last_iff : is_last ext c ≡ leb (count (slot_of id) db.slots) (suc (count (filled_of id) db.slots))
  last_iff = ground (arith, now_completed, before.required)

  hash_all-row :
      (content : Text) (sigs : List ContractSignature)
      → hash_all ext content sigs new ≡ hash_of ext content (sigs ++ row ∷ [])
  unfolding hash_all
  hash_all-row content sigs = rw (
    map-append (λ s. s.signature_hash) sigs (row ∷ []),
    map-append (λ s. s.signed_at) sigs (row ∷ []),
    map-append (λ s. s.content_hash) sigs (row ∷ []),
  )

  row-IsGenuine : IsLawful ext.crypto → IsBytes i.seed → length i.seed ≡ 32 → IsGenuine ext id c row
  row-IsGenuine lawful bytes long mine =
      let hash = hash_content ext.crypto c.content in
      let (signature, made, accepted) =
        verify-sign ext.crypto i.seed id hash (ext.to_rfc3339 i.signed_at) lawful bytes long in
      let same : signature ≡ new.signature_hash = ground (arith, pl.new_made, made) in
      (rw (pl.new_key, pl.new_content, pl.new_time, sym same) accepted, pl.new_content)

  full : is_last ext c ≡ leb (count (slot_of id) slots') (count (filled_of id) slots')
  full = last_iff ∙ ap₂ leb (sym (slot_of-fill id request.slot_id db.slots)) (sym now_one_more)

  hash_made :
      ((sigs : List ContractSignature) → ext.arrange sigs ≡ sigs)
      → hash_all ext c.content (ext.arrange (filter (signature_of id) db.signatures)) new
        ≡ hash_of ext c.content (filter (signature_of id) sigs')
  hash_made in_order =
      ap (λ l. hash_all ext c.content l new) (in_order _)
      ∙ hash_all-row c.content _
      ∙ ap (hash_of ext c.content) (ground (arith, now_listed id, text_eq.beq_iff id id))

  self :
      IsLawful ext.crypto
      → IsBytes i.seed
      → length i.seed ≡ 32
      → ((sigs : List ContractSignature) → ext.arrange sigs ≡ sigs)
      → Agrees ext slots' sigs' id (counted ext c hash c)
  self lawful bytes long in_order =
      let slots = slot_of-fill id request.slot_id db.slots in
      record {
        completed = now_completed ∙ ap pos (sym now_one_more);
        counted =
            ground (arith, now_counted id, now_one_more, before.counted, text_eq.beq_iff id id);
        required = before.required ∙ ap pos (sym slots);
        status = ap (λ b. if b then signed else pending) full;
        final_hash = pl.hash_made ∙ ap₂ (λ b h. if b then h else none) full (hash_made in_order);
        genuine =
            All-append (IsGenuine ext id c) db.signatures (row ∷ []) before.genuine
              (row-IsGenuine lawful bytes long, tt);
      }

  -- The contracts after the signing, each with what the tables now show.
  after-rows :
      IsLawful ext.crypto
      → IsBytes i.seed
      → length i.seed ≡ 32
      → ((sigs : List ContractSignature) → ext.arrange sigs ≡ sigs)
      → (j : Text) (c' : Contract)
      → find (is_contract j) (update (is_contract id) (counted ext c hash) db.contracts) ≡ some c'
      → Agrees ext slots' sigs' j c'
  after-rows lawful bytes long in_order j c' found =
      let now = sym (find-update id j (counted ext c hash) db.contracts (λ x. refl)) ∙ found in
      elim (Bool-cases (id == j)) [
        | inl here ↦
            let same : id ≡ j = eq_of_== id j here in
            let row_found =
              ap (λ k. find (is_contract k) db.contracts) (sym same) ∙ pl.contract_found in
            let is_c : counted ext c hash c ≡ c' = ground (arith, row_found) in
            subst (λ k. Agrees ext slots' sigs' k c') same
              (subst (λ x. Agrees ext slots' sigs' id x) is_c (self lawful bytes long in_order))
        | inr there ↦ other j c' there (v.rows j c' (ground arith))
      ]

-- A signing that is done keeps the contract tables consistent: counts, status and final hash of
-- every contract are what the slots and signatures show, and every signature verifies over the
-- content of its contract. The cryptography is lawful, the seed is 32 bytes, the database returns
-- rows in the order of insertion, and there are fewer than 2 ^ 31 - 1 slots.
pub sign_contract-IsConsistent :
    (ext : Externals) (i : SignInputs) (id : Text) (request : SignContractRequest) (s t : Server)
    (r : SignContractResponse)
    → IsLawful ext.crypto
    → IsBytes i.seed
    → length i.seed ≡ 32
    → ((sigs : List ContractSignature) → ext.arrange sigs ≡ sigs)
    → length s.db.slots < 2147483647
    → IsConsistent ext s.db
    → sign_contract ext i id request s ≡ (done r, t)
    → IsConsistent ext t.db
unfolding fill_slot update_contract_row
sign_contract-IsConsistent ext i id request s t r lawful bytes long in_order small v e =
    let (c, new, hash, db, pl, inserted, written, _) = sign-done ext i id request s t r e in
    subst (IsConsistent ext)
      (ap (after_commit ext id request.slot_id c hash) (sym (inserted-eq new s.db db inserted))
        ∙ sym written)
      (record {
        slot_ids = fill-Distinct request.slot_id s.db.slots v.slot_ids;
        rows = after-rows ext s.db i id request c new hash pl v small lawful bytes long in_order;
      })
