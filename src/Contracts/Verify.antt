-- ===== src/Contracts/Verify.antt =====
-- src/handlers/contracts.rs: what `verify_contract` reports.
use invoices_contracts.Base.{
  ◌≡◌, ◌++◌, refl, sym, ap, ◌∙◌, Bool, true, false, not, List, [], ◌∷◌, map, none, some, arith,
  Text, text_beq, ◌==◌, text_eq, option_eq, find, filter, All, if◌then◌else◌, leb, count,
  Bool-cases, inl, inr, ==_refl,
}
use invoices_contracts.Crypto.{hash_content}
use invoices_contracts.Crypto.FinalHash.{entries, final_hash-entries}
use invoices_contracts.Models.{Contract, ContractSignature, ContractSignatureSlot}
use invoices_contracts.Database.{Database, is_contract, slot_of, signature_of}
use invoices_contracts.Server.{Server, done, Faults, or_fail, not_found, internal_server_error}
use invoices_contracts.Server.Keeps.{KeepsDb-query, KeepsDb-or_fail, query-done, or_fail-done}
use invoices_contracts.Server.Reads.{Reads, Reads-of, Reads-pure, Reads-bind}
use invoices_contracts.Contracts.Access.{Externals, Visit, signed, pending, authorize}
use invoices_contracts.Contracts.Pages.{
  Page, shown, ContractProof, load_slots_of, load_signatures_of, verified, final_hash_valid,
  verify_contract,
}
use invoices_contracts.Contracts.SignEffect.{Authorized, authorize-done}
use invoices_contracts.Contracts.SignKeeps.{authorize-KeepsDb}
use invoices_contracts.Contracts.SlotCounts.{filled_of}
use invoices_contracts.Contracts.Consistent.{hash_of, IsGenuine, Agrees, IsConsistent}

module _ (ext : Externals) where
  -- What stands behind a page that is shown.
  pub record Proved (id : Text) (db : Database) (c : Contract) (p : ContractProof) : Type 0 where
    pub content : p.contract_content ≡ c.content
    pub contract_found : find (is_contract id) db.contracts ≡ some c
    pub rows :
        p.verified_signatures
        ≡ map (verified ext id c) (ext.arrange (filter (signature_of id) db.signatures))
    pub hash_valid :
        final_hash_valid ext c (ext.arrange (filter (signature_of id) db.signatures))
        ≡ some p.final_hash_valid
    pub all_signed : p.fully_signed ≡ (c.status == signed)

  abbrev pub Shown : Text → Database → Page ContractProof → Type 0
  Shown id db page = (c : Contract) × (p : ContractProof) × (page ≡ shown p) × Proved id db c p

  load_signatures-Reads :
      (faults : Faults) (id : Text) (db : Database)
      → Reads db
          (load_signatures_of ext faults id)
          (λ l. l ≡ ext.arrange (filter (signature_of id) db.signatures))
  unfolding load_signatures_of
  load_signatures-Reads faults id db =
      Reads-of db _ (λ d l. l ≡ ext.arrange (filter (signature_of id) d.signatures))
        (KeepsDb-query _ _) (λ s t a r. sym (query-done _ _ s t a r).0)

  load_slots-Reads :
      (faults : Faults) (id : Text) (db : Database)
      → Reads db (load_slots_of ext faults id) (λ l. Unit {0})
  unfolding load_slots_of
  load_slots-Reads faults id db =
      Reads-of db _ (λ d l. Unit {0}) (KeepsDb-query _ _) (λ s t a r. tt)

  pub verify_contract-Reads :
      (v : Visit) (id code uuid : Text) (db : Database)
      → Reads db (verify_contract ext v id code (some uuid)) (Shown id db)
  unfolding verify_contract
  verify_contract-Reads v id code uuid db =
      Reads-bind db _ _ _ _
        (Reads-of db (authorize ext v id uuid) (λ d. Authorized ext uuid id d)
          (authorize-KeepsDb ext v id uuid) (authorize-done ext v id uuid))
        λ found seen. Reads-bind db _ _ _ _ (load_slots-Reads v.faults id db) λ slots _.
          Reads-bind db _ _ _ _ (load_signatures-Reads v.faults id db) λ signatures listed.
            Reads-bind db _ _ _ _
              (Reads-of db (or_fail not_found _) (λ d a. Unit {0}) (KeepsDb-or_fail _ _)
                (λ s t a r. tt))
              λ target _.
                Reads-bind db _ _ _ _
                  (Reads-of db
                    (or_fail internal_server_error (final_hash_valid ext found.0 signatures))
                    (λ d b. final_hash_valid ext found.0 signatures ≡ some b) (KeepsDb-or_fail _ _)
                    (λ s t a r. (or_fail-done _ _ s t a r).0))
                  λ valid is_valid. Reads-pure db _ (Shown id db) (
                    found.0,
                    _,
                    refl,
                    record {
                      content = refl;
                      contract_found = seen.contract_found;
                      rows = ap (map (verified ext id found.0)) listed;
                      hash_valid = ap (final_hash_valid ext found.0) (sym listed) ∙ is_valid;
                      all_signed = refl;
                    },
                  )

  genuine-verified :
      (id : Text) (c : Contract) (sigs : List ContractSignature)
      → All (IsGenuine ext id c) sigs
      → All
          (λ w. (w.valid ≡ true) × (w.tampered ≡ false))
          (map (verified ext id c) (filter (signature_of id) sigs))
  unfolding verified
  genuine-verified id c [] g = tt
  genuine-verified id c (x ∷ xs) g = head (genuine-verified id c xs g.1) (signature_of id x) refl
    where
      head :
          All
            (λ w. (w.valid ≡ true) × (w.tampered ≡ false))
            (map (verified ext id c) (filter (signature_of id) xs))
          → (b : Bool) → signature_of id x ≡ b
          → All
              (λ w. (w.valid ≡ true) × (w.tampered ≡ false))
              (map
                (verified ext id c)
                (if b then x ∷ filter (signature_of id) xs else filter (signature_of id) xs))
      head rest true mine =
          let (accepted, same) = g.0 mine in
          ((accepted, rw same (ap not (==_refl (hash_content ext.crypto c.content)))), rest)
      head rest false other = rest

  hash_valid-Agrees :
      (id : Text) (c : Contract) (slots : List ContractSignatureSlot)
      (sigs : List ContractSignature)
      → Agrees ext slots sigs id c
      → final_hash_valid ext c (filter (signature_of id) sigs) ≡ some (c.status == signed)
  unfolding final_hash_valid text_beq
  hash_valid-Agrees id c slots sigs a =
      elim (Bool-cases (leb (count (slot_of id) slots) (count (filled_of id) slots))) [
        | inl full ↦
            let made =
              final_hash-entries (λ s. s.signature_hash) (λ s. s.signed_at) (λ s. s.content_hash)
                ext.crypto c.content (filter (signature_of id) sigs) in
            let is_signed : c.status ≡ signed = ground (arith, a.status) in
            let has_hash =
              ap (λ b. if b then hash_of ext c.content (filter (signature_of id) sigs) else none)
                full
              ∙ made in
            rw
              (
                a.final_hash ∙ has_hash,
                is_signed,
                made,
                final_hash_valid,
                ==_refl {A = Text} signed,
                ==_refl {A = Text} (
                    hash_content ext.crypto (
                      c.content
                      ++ entries (λ s. s.signature_hash) (λ s. s.signed_at) (λ s. s.content_hash)
                          (filter (signature_of id) sigs))),
              )
              refl
        | inr short ↦
            let is_pending : c.status ≡ pending = ground (arith, a.status) in
            let no_hash : c.final_hash ≡ none = ground (arith, a.final_hash) in
            rw (no_hash, is_pending) refl
      ]

  -- On consistent tables a verification page that is shown reports every signature as valid and
  -- none as tampered with, and the final hash as valid exactly if the contract is fully signed.
  -- The database returns rows in the order of insertion.
  pub verify_contract-IsConsistent :
      (v : Visit) (id code uuid : Text) (s t : Server) (page : Page ContractProof)
      → ((sigs : List ContractSignature) → ext.arrange sigs ≡ sigs)
      → IsConsistent ext s.db
      → verify_contract ext v id code (some uuid) s ≡ (done page, t)
      → (c : Contract) × (p : ContractProof) × (page ≡ shown p)
        × (find (is_contract id) s.db.contracts ≡ some c)
        × (p.contract_content ≡ c.content)
        × All (λ w. (w.valid ≡ true) × (w.tampered ≡ false)) p.verified_signatures
        × (p.final_hash_valid ≡ p.fully_signed)
  verify_contract-IsConsistent v id code uuid s t page in_order ok e =
      let (c, p, is_shown, proved) =
        ((verify_contract-Reads v id code uuid s.db).at s t page refl e).1 in
      let agrees = ok.rows id c proved.contract_found in
      let listed = in_order (filter (signature_of id) s.db.signatures) in
      (
        c,
        p,
        is_shown,
        proved.contract_found,
        proved.content,
        rw (proved.rows, listed) (genuine-verified id c s.db.signatures agrees.genuine),
        ground (
          arith,
          sym proved.hash_valid
              ∙ ap (final_hash_valid ext c) listed
              ∙ hash_valid-Agrees id c s.db.slots s.db.signatures agrees,
          proved.all_signed,
        ),
      )
