-- ===== src/Contracts/Owned.antt =====
-- src/handlers/contracts.rs, with foreign keys enforced: every slot and every signature is of a
-- stored contract.
use invoices_contracts.Base.{
  ◌≡◌, refl, sym, ap, ◌∙◌, subst, Bool, true, false, Bool-cases, inl, inr, List, [], ◌∷◌, ◌++◌,
  Option, none, some, arith, Text, text_eq, option_eq, ◌==◌, eq_of_==, find, any, any-append,
  update, if◌then◌else◌,
}
use invoices_contracts.Base.Int.{ℤ}
use invoices_contracts.Models.{
  Contract, CreateContractSignature, SignatureSlotDefinition, SignContractResponse,
}
use invoices_contracts.Database.{
  Database, is_contract, is_slot, slot_of, signature_of, fill, insert_slot, insert_signature,
  fill_slot, update_contract_row,
}
use invoices_contracts.Server.{
  Server, Outcome, done, failed, Faults, write, pure, ◌>>=◌, insert_signature_call, conflict,
  internal_server_error,
}
use invoices_contracts.Server.Keeps.{KeepsDb-pure}
use invoices_contracts.Server.Holds.{Holds, Holds-KeepsDb, Holds-write, Holds-bind}
use invoices_contracts.Contracts.Access.{Externals}
use invoices_contracts.Contracts.Admin.{insert_slots}
use invoices_contracts.Contracts.Sign.{insert_new, commit}
use invoices_contracts.Contracts.SignConsistent.{inserted-eq}

pub record IsOwned (db : Database) : Type 0 where
  pub slots : (j : Text) → any (slot_of j) db.slots ≡ true → any (is_contract j) db.contracts ≡ true
  pub signatures :
      (j : Text)
      → any (signature_of j) db.signatures ≡ true
      → any (is_contract j) db.contracts ≡ true

any-update :
    {A : Type 0} (p q : A → Bool) (f : A → A) (xs : List A)
    → ((x : A) → p (f x) ≡ p x)
    → any p (update q f xs) ≡ any p xs
any-update p q f [] same = refl
any-update p q f (x ∷ xs) same = ground (arith, same x, any-update p q f xs same)

pub any-found :
    {A : Type 0} (p : A → Bool) (xs : List A) (a : A) → find p xs ≡ some a → any p xs ≡ true
any-found p [] a h = absurd (ground arith)
any-found p (x ∷ xs) a h = ground (arith, any-found p xs a)

-- A contract is there for the slots and signatures that are to come.
pub record IsOwnedWith (id : Text) (db : Database) : Type 0 where
  pub owned : IsOwned db
  pub present : any (is_contract id) db.contracts ≡ true

-- One more row of a contract that is there.
one_more :
    {A : Type 0} (of : Text → A → Bool) (cs : List Contract) (id : Text) (xs : List A) (x : A)
    → ((j : Text) → any (of j) xs ≡ true → any (is_contract j) cs ≡ true)
    → ((j : Text) → of j x ≡ true → id ≡ j)
    → any (is_contract id) cs ≡ true
    → (j : Text) → any (of j) (xs ++ x ∷ []) ≡ true
    → any (is_contract j) cs ≡ true
one_more of cs id xs x old mine there j h = elim (Bool-cases (of j x)) [
  | inl here ↦ subst (λ k. any (is_contract k) cs ≡ true) (mine j here) there
  | inr other ↦ old j (ground (arith, any-append (of j) xs (x ∷ []), h))
]

pub insert_slots-IsOwnedWith :
    (id : Text) (ds : List SignatureSlotDefinition) (db : Database)
    → IsOwnedWith id db
    → IsOwnedWith id (insert_slots id ds db)
unfolding insert_slots insert_slot
insert_slots-IsOwnedWith id [] db p = p
insert_slots-IsOwnedWith id (d ∷ ds) db p = insert_slots-IsOwnedWith id ds _ (record {
  owned = record {
    slots =
        one_more slot_of db.contracts id db.slots _ p.owned.slots (λ j. eq_of_== id j) p.present;
    signatures = p.owned.signatures;
  };
  present = p.present;
})

pub update_row-IsOwned :
    (id : Text) (f : Contract → Contract) (db : Database)
    → ((c : Contract) → (f c).id ≡ c.id)
    → IsOwned db
    → IsOwned (update_contract_row id f db)
unfolding update_contract_row
update_row-IsOwned id f db same p = record {
  slots = λ j h.
      any-update (is_contract j) (is_contract id) f db.contracts
        (λ c. ap (λ k. k == some j) (same c))
      ∙ p.slots j h;
  signatures = λ j h.
      any-update (is_contract j) (is_contract id) f db.contracts
        (λ c. ap (λ k. k == some j) (same c))
      ∙ p.signatures j h;
}

fill-IsOwned : (k : ℤ) (db : Database) → IsOwned db → IsOwned (fill_slot k db)
unfolding fill_slot
fill-IsOwned k db p = record {
  slots = λ j h. p.slots j (sym (any-update (slot_of j) (is_slot k) fill db.slots (λ x. refl)) ∙ h);
  signatures = p.signatures;
}

insert-IsOwnedWith :
    (new : CreateContractSignature) (db after : Database)
    → insert_signature new db ≡ some after
    → IsOwnedWith new.contract_id db
    → IsOwnedWith new.contract_id after
insert-IsOwnedWith new db after e p =
    subst (IsOwnedWith new.contract_id) (sym (inserted-eq new db after e)) (record {
      owned = record {
        slots = p.owned.slots;
        signatures =
            one_more signature_of db.contracts new.contract_id db.signatures _ p.owned.signatures
              (λ j. eq_of_== new.contract_id j) p.present;
      };
      present = p.present;
    })

module _ (ext : Externals) (new : CreateContractSignature) where
  insert_new-Holds :
      (faults : Faults) → Holds (IsOwnedWith new.contract_id) (insert_new ext faults new)
  unfolding insert_new
  insert_new-Holds faults = record { held = λ s p. go (faults insert_signature_call) s p }
    where
      kept :
          (s : Server) (o : Option Database)
          → insert_signature new s.db ≡ o
          → IsOwnedWith new.contract_id s.db
          → IsOwnedWith new.contract_id
              (elim o as (λ o. Outcome (Unit {0}) × Server) [
                | none ↦ (failed conflict, s)
                | some db ↦ (done tt, record s { db = db })
              ]).1.db
      kept s none e p = p
      kept s (some db) e p = insert-IsOwnedWith new s.db db e p

      go :
          (b : Bool) (s : Server)
          → IsOwnedWith new.contract_id s.db
          → IsOwnedWith new.contract_id
              (if b
                then (failed internal_server_error, s)
                else (elim (insert_signature new s.db) as (λ o. Outcome (Unit {0}) × Server) [
                  | none ↦ (failed conflict, s)
                  | some db ↦ (done tt, record s { db = db })
                ])).1.db
      go true s p = p
      go false s p = kept s (insert_signature new s.db) refl p

  fill-Holds :
      (fault : Bool) (k : ℤ) → Holds (IsOwnedWith new.contract_id) (write fault (fill_slot k))
  unfolding fill_slot
  fill-Holds fault k =
      Holds-write _ fault (fill_slot k)
        (λ db p. record { owned = fill-IsOwned k db p.owned; present = p.present })

  count-Holds :
      (fault : Bool) (id : Text) (f : Contract → Contract)
      → ((c : Contract) → (f c).id ≡ c.id)
      → Holds (IsOwnedWith new.contract_id) (write fault (update_contract_row id f))
  unfolding update_contract_row
  count-Holds fault id f same = Holds-write _ fault (update_contract_row id f) (λ db p. record {
    owned = update_row-IsOwned id f db same p.owned;
    present =
        any-update (is_contract new.contract_id) (is_contract id) f db.contracts
          (λ c. ap (λ k. k == some new.contract_id) (same c))
        ∙ p.present;
  })

  pub commit-Holds :
      (faults : Faults) (id : Text) (slot : ℤ) (c : Contract) (hash : Option Text)
      (r : SignContractResponse)
      → Holds (IsOwnedWith new.contract_id) (commit ext faults id slot c new hash >>= λ _. pure r)
  unfolding commit
  commit-Holds faults id slot c hash r =
      Holds-bind _ _ _
        (Holds-bind _ _ _ (insert_new-Holds faults)
          (λ _. Holds-bind _ _ _ (fill-Holds _ slot) (λ _. count-Holds _ id _ (λ d. refl))))
        (λ _. Holds-KeepsDb _ _ (KeepsDb-pure r))
