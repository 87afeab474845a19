-- ===== src/Contracts/Overlap.antt =====
-- src/handlers/contracts.rs: two signings of one contract that overlap. Both have read the contract
-- before either writes.
use invoices_contracts.Base.{
  ◌≡◌, refl, ap, ◌∙◌, ◌+◌, suc, true, [], ◌∷◌, Option, some, arith, Text, ◌==◌, text_eq, ==_refl,
  find, count, count-append, any, Bool-cases, inl, inr, update, if◌then◌else◌,
}
use invoices_contracts.Base.Int.{ℤ, succ_i32}
use invoices_contracts.Models.{Contract, CreateContractSignature}
use invoices_contracts.Database.{
  Database, is_contract, signature_of, signature_row, clashes, insert_signature, fill_slot,
  update_contract_row,
}
use invoices_contracts.Server.{Server, Faults, done}
use invoices_contracts.Crud.Map.{map_option}
use invoices_contracts.Crud.Finds.{find-update_same}
use invoices_contracts.Contracts.Access.{Externals, pending, signed}
use invoices_contracts.Contracts.Sign.{is_last, commit}
use invoices_contracts.Contracts.Commit.{counted, commit-done}

pub inserted-count :
    (id : Text) (new : CreateContractSignature) (db db' : Database)
    → new.contract_id ≡ id
    → insert_signature new db ≡ some db'
    → (count (signature_of id) db'.signatures ≡ suc (count (signature_of id) db.signatures))
      × (db'.contracts ≡ db.contracts)
unfolding insert_signature
inserted-count id new db db' named e = elim (Bool-cases (any (clashes new) db.signatures)) [
  | inl clash ↦ absurd (ground arith)
  | inr free ↦
      let row = signature_row db.next_signature new in
      let mine : signature_of id row ≡ true = ap (λ x. x == id) named ∙ ==_refl id in
      let grown = count-append (signature_of id) db.signatures (row ∷ []) in
      (ground (arith, mine, grown), ground arith)
]

module _ (ext : Externals) where
  committed :
      (f : Faults) (id : Text) (slot : ℤ) (contract : Contract) (new : CreateContractSignature)
      (hash : Option Text) (s t : Server) (x : Unit {0})
      → new.contract_id ≡ id
      → commit ext f id slot contract new hash s ≡ (done x, t)
      → (count (signature_of id) t.db.signatures ≡ suc (count (signature_of id) s.db.signatures))
        × (find (is_contract id) t.db.contracts
            ≡ map_option (counted ext contract hash) (find (is_contract id) s.db.contracts))
  unfolding fill_slot update_contract_row
  committed f id slot contract new hash s t x named e =
      let (db, inserted, end) = commit-done ext f id slot contract new hash s t x e in
      let (grown, same) = inserted-count id new s.db db named inserted in
      (
        ap (λ d. count (signature_of id) d.signatures) end ∙ grown,
        ap (λ d. find (is_contract id) d.contracts) end
            ∙ ap
                (λ cs.
                  find (is_contract id) (update (is_contract id) (counted ext contract hash) cs))
                same
            ∙ find-update_same (is_contract id) (counted ext contract hash) s.db.contracts
                (λ c. refl),
      )

  -- Two signings that have both read one stored contract before either writes, and that both
  -- commit, add two signatures to the contract, but its count of signatures is one more than the
  -- count that was read, and its status is the one that this count gives.
  pub overlapping_signings :
      (f g : Faults) (id : Text) (a b : ℤ) (contract : Contract)
      (new new' : CreateContractSignature) (hash hash' : Option Text) (s t u : Server)
      (x y : Unit {0})
      → find (is_contract id) s.db.contracts ≡ some contract
      → new.contract_id ≡ id
      → new'.contract_id ≡ id
      → commit ext f id a contract new hash s ≡ (done x, t)
      → commit ext g id b contract new' hash' t ≡ (done y, u)
      → (count (signature_of id) u.db.signatures ≡ 2 + count (signature_of id) s.db.signatures)
        × ((c : Contract) × (find (is_contract id) u.db.contracts ≡ some c)
            × (c.completed_signatures ≡ succ_i32 contract.completed_signatures)
            × (c.status ≡ (if is_last ext contract then signed else pending)))
  overlapping_signings f g id a b contract new new' hash hash' s t u x y read named named' e e' =
      let (grown, row) = committed f id a contract new hash s t x named e in
      let (grown', row') = committed g id b contract new' hash' t u y named' e' in
      (
        omega (arith, grown, grown'),
        (
          counted ext contract hash' (counted ext contract hash contract),
          row'
              ∙ ap (map_option (counted ext contract hash'))
                  (row ∙ ap (map_option (counted ext contract hash)) read),
          refl,
          refl,
        ),
      )
