-- ===== src/Contracts/Tampered.antt =====
-- src/handlers/contracts.rs: `verify_contract` after a change of the content of a signed contract.
use invoices_contracts.Base.{
  ◌≡◌, refl, sym, ap, ◌∙◌, Bool, true, false, not, List, [], ◌∷◌, map, some, arith, Text, ◌==◌,
  text_eq, option_eq, find, filter, any, All, Bool-cases, inl, inr, ==_refl, eq_of_==,
  if◌then◌else◌,
}
use invoices_contracts.Crypto.{hash_content}
use invoices_contracts.Models.{Contract, ContractPayload, ContractSignature}
use invoices_contracts.Database.{is_contract, signature_of, update_contract_row}
use invoices_contracts.Server.{
  Server, done, Faults, acquire, load_contract, query, write, require, >>=-done,
  update_contract_call, not_found, internal_server_error,
}
use invoices_contracts.Server.Keeps.{query-done, require-done, or_fail-done}
use invoices_contracts.Contracts.Access.{Externals, Visit}
use invoices_contracts.Contracts.Admin.{apply_changes, update_contract}
use invoices_contracts.Contracts.Pages.{Page, shown, ContractProof, verified, verify_contract}
use invoices_contracts.Contracts.Commit.{write-done}
use invoices_contracts.Contracts.Consistent.{IsGenuine, IsConsistent}
use invoices_contracts.Contracts.SignConsistent.{changed_if, find-update}
use invoices_contracts.Contracts.Verify.{verify_contract-Reads}

-- A change that is done is the update of the row.
pub update_contract-done :
    (ext : Externals) (faults : Faults) (id : Text) (p : ContractPayload) (s t : Server)
    (c : Contract)
    → update_contract faults id p s ≡ (done c, t)
    → t.db ≡ update_contract_row id (apply_changes p) s.db
unfolding update_contract
update_contract-done ext faults id p s t c h =
    let (_, s₁, e₁, h₁) = >>=-done (query (faults acquire) (λ db. tt)) _ s t c h in
    let (b, s₂, e₂, h₂) =
      >>=-done (λ (w : Server). (done (any (is_contract id) w.db.contracts), w)) _ s₁ t c h₁ in
    let (_, s₃, e₃, h₃) = >>=-done (write (faults update_contract_call) _) _ s₂ t c h₂ in
    let (_, s₄, e₄, h₄) = >>=-done (require not_found b) _ s₃ t c h₃ in
    let (found, s₅, e₅, h₅) = >>=-done (query (faults load_contract) _) _ s₄ t c h₄ in
    ap (λ w. w.db)
      ((or_fail-done internal_server_error found s₅ t c h₅).1
        ∙ (query-done _ _ s₄ s₅ found e₅).1
        ∙ (require-done not_found b s₃ s₄ _ e₄).1)
    ∙ write-done ext _ _ s₂ s₃ _ e₃
    ∙ ap (λ w. update_contract_row id (apply_changes p) w.db)
        (ap (λ r. r.1) (sym e₂) ∙ (query-done _ _ s s₁ _ e₁).1)

module _ (ext : Externals) (id : Text) (old changed : Contract)
    (differ : ¬ (
      hash_content ext.crypto changed.content ≡ hash_content ext.crypto old.content)) where
  flagged :
      (x : ContractSignature)
      → IsGenuine ext id old x
      → signature_of id x ≡ true
      → ((verified ext id changed x).valid ≡ true) × ((verified ext id changed x).tampered ≡ true)
  unfolding verified
  flagged x g mine =
      let (accepted, same) = g mine in
      elim (Bool-cases (hash_content ext.crypto changed.content == x.content_hash)) [
        | inl equal ↦ absurd (differ (eq_of_== _ x.content_hash equal ∙ same))
        | inr other ↦ (accepted, ap not other)
      ]

  All-flagged :
      (sigs : List ContractSignature)
      → All (IsGenuine ext id old) sigs
      → All
          (λ w. (w.valid ≡ true) × (w.tampered ≡ true))
          (map (verified ext id changed) (filter (signature_of id) sigs))
  All-flagged [] g = tt
  All-flagged (x ∷ xs) g = head (All-flagged xs g.1) (signature_of id x) refl
    where
      head :
          All
            (λ w. (w.valid ≡ true) × (w.tampered ≡ true))
            (map (verified ext id changed) (filter (signature_of id) xs))
          → (b : Bool) → signature_of id x ≡ b
          → All
              (λ w. (w.valid ≡ true) × (w.tampered ≡ true))
              (map
                (verified ext id changed)
                (if b then x ∷ filter (signature_of id) xs else filter (signature_of id) xs))
      head rest true mine = (flagged x g.0 mine, rest)
      head rest false other = rest

-- After a change of a contract in consistent tables, to a content with another hash, a
-- verification page that is shown has the new content and reports every signature as valid, but as
-- tampered with. The database returns rows in the order of insertion.
pub changed_content-tampered :
    (ext : Externals) (faults : Faults) (id code uuid : Text) (p : ContractPayload) (s t u : Server)
    (old c : Contract) (v : Visit) (page : Page ContractProof)
    → ((sigs : List ContractSignature) → ext.arrange sigs ≡ sigs)
    → IsConsistent ext s.db
    → find (is_contract id) s.db.contracts ≡ some old
    → ¬ (hash_content ext.crypto p.content ≡ hash_content ext.crypto old.content)
    → update_contract faults id p s ≡ (done c, t)
    → verify_contract ext v id code (some uuid) t ≡ (done page, u)
    → (proof : ContractProof) × (page ≡ shown proof)
      × (proof.contract_content ≡ p.content)
      × All (λ w. (w.valid ≡ true) × (w.tampered ≡ true)) proof.verified_signatures
unfolding update_contract_row apply_changes
changed_content-tampered ext faults id code uuid p s t u old c v page in_order ok there differ
      changes shows =
    let after = update_contract-done ext faults id p s t c changes in
    let (now, proof, is_shown, proved) =
      ((verify_contract-Reads ext v id code uuid t.db).at t u page refl shows).1 in
    let found : some now ≡ some (apply_changes p old) =
      sym proved.contract_found
      ∙ ap (λ d. find (is_contract id) d.contracts) after
      ∙ find-update id id (apply_changes p) s.db.contracts (λ x. refl)
      ∙ ap (changed_if (id == id) (apply_changes p)) there
      ∙ ap (λ b. changed_if b (apply_changes p) (some old)) (==_refl id) in
    let is_now : now ≡ apply_changes p old = ground (arith, found) in
    let rows =
      proved.rows
      ∙ ap (map (verified ext id now)) (in_order _)
      ∙ ap (λ d. map (verified ext id now) (filter (signature_of id) d.signatures)) after
      ∙ ap (λ x. map (verified ext id x) (filter (signature_of id) s.db.signatures)) is_now in
    (
      proof,
      is_shown,
      proved.content ∙ ap (λ x. x.content) is_now,
      rw rows (
          All-flagged ext id old (apply_changes p old) differ s.db.signatures
            (ok.rows id old there).genuine),
    )
