-- ===== src/Contracts/Commit.antt =====
-- src/handlers/contracts.rs: the three writes of `sign_contract`, and its failures.
use invoices_contracts.Base.{
  ◌≡◌, refl, inl, inr, Bool, true, false, Option, some, arith, Text, ap, sym, ◌∙◌, if◌then◌else◌,
}
use invoices_contracts.Base.Int.{ℤ, succ_i32}
use invoices_contracts.Models.{
  Contract, CreateContractSignature, SignContractRequest, SignContractResponse,
}
use invoices_contracts.Database.{
  Database, insert_signature, fill_slot, count_signature, update_contract_row,
}
use invoices_contracts.Server.{
  Server, StatusCode, done, failed, Faults, write, ◌>>=◌, >>=-done, >>=-failed, pure-ne-failed,
  update_slot_call, update_contract_call,
}
use invoices_contracts.Server.Keeps.{db_after, pure-done}
use invoices_contracts.Contracts.Access.{Externals, pending, signed}
use invoices_contracts.Contracts.Sign.{
  SignInputs, is_last, insert_new, commit, prepare, response, sign_contract,
}
use invoices_contracts.Contracts.SignEffect.{Planned, prepare-Reads}
use invoices_contracts.Contracts.SignKeeps.{prepare-KeepsDb}

module _ (ext : Externals) where
  -- The contract after a signing.
  abbrev pub counted : Contract → Option Text → Contract → Contract
  counted contract hash =
      count_signature (succ_i32 contract.completed_signatures)
        (if is_last ext contract then signed else pending) hash

  -- The database after a signing that found `db` behind its insertion.
  abbrev pub after_commit : Text → ℤ → Contract → Option Text → Database → Database
  after_commit contract_id slot_id contract hash db =
      update_contract_row contract_id (counted contract hash) (fill_slot slot_id db)

  pub insert_new-done :
      (faults : Faults) (new : CreateContractSignature) (s t : Server) (u : Unit {0})
      → insert_new ext faults new s ≡ (done u, t)
      → insert_signature new s.db ≡ some t.db
  unfolding insert_new
  insert_new-done faults new s t u e = ground arith

  pub write-done :
      (fault : Bool) (f : Database → Database) (s t : Server) (u : Unit {0})
      → write fault f s ≡ (done u, t)
      → t.db ≡ f s.db
  unfolding write
  write-done true f s t u e = absurd (ground arith)
  write-done false f s t u e = ground arith

  pub commit-done :
      (faults : Faults) (contract_id : Text) (slot_id : ℤ) (contract : Contract)
      (new : CreateContractSignature) (hash : Option Text) (s t : Server) (u : Unit {0})
      → commit ext faults contract_id slot_id contract new hash s ≡ (done u, t)
      → (db : Database) × (insert_signature new s.db ≡ some db)
        × (t.db ≡ after_commit contract_id slot_id contract hash db)
  unfolding commit
  commit-done faults contract_id slot_id contract new hash s t u e =
      let (_, s₁, e₁, r₁) = >>=-done (insert_new ext faults new) _ s t u e in
      let (_, s₂, e₂, r₂) = >>=-done (write _ _) _ s₁ t u r₁ in
      (
        s₁.db,
        insert_new-done faults new s s₁ _ e₁,
        write-done _ _ s₂ t u r₂
            ∙ ap (update_contract_row contract_id (counted contract hash))
                (write-done _ _ s₁ s₂ _ e₂),
      )

  -- A signing that is done had read a pending contract, not expired, and an open slot of it, has
  -- inserted one signature, which does not clash with the stored ones, has filled the slot and
  -- counted the signature, and answers with the new progress.
  pub sign-done :
      (i : SignInputs) (contract_id : Text) (request : SignContractRequest) (s t : Server)
      (r : SignContractResponse)
      → sign_contract ext i contract_id request s ≡ (done r, t)
      → (c : Contract) × (new : CreateContractSignature) × (hash : Option Text) × (db : Database)
        × Planned ext i contract_id request s.db c new hash
        × (insert_signature new s.db ≡ some db)
        × (t.db ≡ after_commit contract_id request.slot_id c hash db)
        × (r ≡ response ext c new)
  unfolding sign_contract
  sign-done i contract_id request s t r e =
      let (plan, s₁, e₁, r₁) = >>=-done (prepare ext i contract_id request) _ s t r e in
      let (u, s₂, e₂, r₂) = >>=-done (commit ext _ contract_id _ _ _ _) _ s₁ t r r₁ in
      let (same, planned) = (prepare-Reads ext i contract_id request s.db).at s s₁ plan refl e₁ in
      let (db, inserted, written) =
        commit-done i.visit.faults contract_id request.slot_id plan.0 plan.1 plan.2 s₁ s₂ u e₂ in
      let (answer, last) = pure-done _ s₂ t r r₂ in
      (
        plan.0,
        plan.1,
        plan.2,
        db,
        planned,
        ap (insert_signature plan.1) (sym same) ∙ inserted,
        ap (λ w. w.db) last ∙ written,
        sym answer,
      )

  commit-failed :
      (faults : Faults) (contract_id : Text) (slot_id : ℤ) (contract : Contract)
      (new : CreateContractSignature) (hash : Option Text) (s t : Server) (c : StatusCode)
      → faults update_slot_call ≡ false
      → faults update_contract_call ≡ false
      → commit ext faults contract_id slot_id contract new hash s ≡ (failed c, t)
      → t ≡ s
  unfolding commit insert_new ◌>>=◌
  commit-failed faults contract_id slot_id contract new hash s t c f g e = ground arith

  -- A signing that fails leaves the database as it was, if neither of its two updates fails by a
  -- fault of the database.
  pub sign_refused :
      (i : SignInputs) (contract_id : Text) (request : SignContractRequest) (s t : Server)
      (c : StatusCode)
      → i.visit.faults update_slot_call ≡ false
      → i.visit.faults update_contract_call ≡ false
      → sign_contract ext i contract_id request s ≡ (failed c, t)
      → t.db ≡ s.db
  unfolding sign_contract
  sign_refused i contract_id request s t c f g e =
      elim (>>=-failed (prepare ext i contract_id request) _ s t c e) [
        | inl early ↦ db_after _ s t (failed c) (prepare-KeepsDb ext i contract_id request) early
        | inr (plan, u, e₁, rest) ↦
            elim (>>=-failed (commit ext i.visit.faults contract_id _ _ _ _) _ u t c rest) [
              | inl late ↦
                  ap (λ w. w.db) (commit-failed i.visit.faults contract_id _ _ _ _ u t c f g late)
                  ∙ db_after _ s u (done plan) (prepare-KeepsDb ext i contract_id request) e₁
              | inr (x, v, _, over) ↦ absurd (pure-ne-failed _ v t c over)
            ]
      ]
