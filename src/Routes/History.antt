-- ===== src/Routes/History.antt =====
-- src/main.rs: the histories of the server, as sequences of requests to all routes, and what they
-- keep of contracts and signatures.
use invoices_contracts.Base.{
  ◌<◌, ◌≡◌, sym, ap, ◌∙◌, subst, true, false, some, List, Text, find, count, length, All,
}
use invoices_contracts.Models.{Customer, Invoice, Contract}
use invoices_contracts.Database.{Database, is_contract, slot_of, signature_of}
use invoices_contracts.Server.{Server, done}
use invoices_contracts.Auth.Extract.{Parts}
use invoices_contracts.Auth.Stable.{Stable}
use invoices_contracts.Contracts.Access.{Externals}
use invoices_contracts.Contracts.Access.{Visit as ContractVisit}
use invoices_contracts.Contracts.Pages.{Page, shown, ContractProof, verify_contract}
use invoices_contracts.Contracts.Verify.{verify_contract-IsConsistent}
use invoices_contracts.Contracts.Sound.{IsSound}
use invoices_contracts.Contracts.CreateSound.{IsUnused, create_contract-IsSound}
use invoices_contracts.Contracts.ChangeSound.{
  IsCosmetic, delete_contract-IsSound, update_contract-IsSound,
}
use invoices_contracts.Contracts.SignSound.{IsFaithful, IsCalm, sign_contract-IsSound}
use invoices_contracts.Contracts.Consistent.{Agrees}
use invoices_contracts.Routes.{
  Environment, Request, public, protected, post_signing, Protected, post_contract, put_contract,
  serve, get_dashboard, get_profile_page, get_invoice, get_profile, put_profile, get_contracts,
  get_contract, delete_of_contract, customers, invoices,
}
use invoices_contracts.Routes.Access.{SameBusiness, OfBusiness-Stable}
use invoices_contracts.Routes.Upholds.{Upholds, serve-kept}

-- What a request is taken to do: a signing has 32 random bytes and is not cut off between its
-- writes, a creation draws a new UUID, and a change of a contract repeats what its signatures rest on.
-- Every other request is free.
abbrev pub IsCareful : Request → Database → Type 0
IsCareful (public (post_signing i id request)) db = IsCalm i × (length db.slots < 2147483647)
IsCareful (protected parts (post_contract f uuid now r)) db =
    IsUnused uuid db × (length r.signature_slots < 2147483648)
IsCareful (protected parts (put_contract f id p)) db =
    (c : Contract) → find (is_contract id) db.contracts ≡ some c → IsCosmetic p c
IsCareful r db = Unit {0}

module _ {D V F : Type 0} (env : Environment D V F) where
  -- The server has answered one careful request.
  pub data Step (s : Server) : Server → Type 0 where
    answering : (r : Request) → IsCareful r s.db → Step s (serve env r s).1

  pub data Reach (start : Server) : Server → Type 0 where
    here : Reach start start
    later : {s t : Server} → Reach start s → Step s t → Reach start t

-- Tables in which the business is the same are as sound.
module _ (ext : Externals) where
  SameBusiness-IsSound :
      (before after : Database) → SameBusiness before after → IsSound ext before → IsSound ext after
  SameBusiness-IsSound before after same v = record {
    consistent = record {
      slot_ids = rw same.slots v.consistent.slot_ids;
      rows = λ i c found.
          subst (λ slots. Agrees ext slots after.signatures i c) (sym same.slots)
            (subst (λ sigs. Agrees ext before.slots sigs i c) (sym same.signatures)
              (v.consistent.rows i c (ap (find (is_contract i)) (sym same.contracts) ∙ found)));
    };
    below = rw (same.slots, same.next_slot) v.below;
  }

  IsSound-Stable : Stable (IsSound ext)
  IsSound-Stable = OfBusiness-Stable (IsSound ext) SameBusiness-IsSound

  billing-IsSound :
      (rows : List Customer) (bills : List Invoice) (db : Database)
      → IsSound ext db
      → IsSound ext (record db { customers = rows; invoices = bills })
  billing-IsSound rows bills db v = record {
    consistent = record { slot_ids = v.consistent.slot_ids; rows = v.consistent.rows };
    below = v.below;
  }

-- The extractor leaves a careful request careful.
still-IsCareful :
    (parts : Parts) (r : Protected) (before after : Database)
    → SameBusiness before after
    → IsCareful (protected parts r) before
    → IsCareful (protected parts r) after
still-IsCareful parts (post_contract f uuid now r) before after same h = (
  record {
    no_slots = ap (count (slot_of uuid)) same.slots ∙ h.0.no_slots;
    no_signatures = ap (count (signature_of uuid)) same.signatures ∙ h.0.no_signatures;
  },
  h.1,
)
still-IsCareful parts (put_contract f id p) before after same h =
    λ c found. h c (ap (find (is_contract id)) (sym same.contracts) ∙ found)
still-IsCareful parts get_dashboard before after same h = tt
still-IsCareful parts get_profile_page before after same h = tt
still-IsCareful parts (get_invoice f id) before after same h = tt
still-IsCareful parts (get_profile c) before after same h = tt
still-IsCareful parts (put_profile c salt p) before after same h = tt
still-IsCareful parts (get_contracts f) before after same h = tt
still-IsCareful parts (get_contract f id) before after same h = tt
still-IsCareful parts (delete_of_contract f id) before after same h = tt
still-IsCareful parts (customers r) before after same h = tt
still-IsCareful parts (invoices r) before after same h = tt

module _ {D V F : Type 0} (env : Environment D V F) (faithful : IsFaithful env.externals) where
  IsSound-Upholds : Upholds env (IsSound env.externals) IsCareful
  IsSound-Upholds = record {
    stable = IsSound-Stable env.externals;
    customers_kept = λ rows db. billing-IsSound env.externals rows db.invoices db;
    invoices_kept = λ rows db. billing-IsSound env.externals db.customers rows db;
    signing_kept =
        λ i id request s h. sign_contract-IsSound env.externals i id request s faithful h.0 h.1;
    creation_kept =
        λ parts f uuid now r s h. create_contract-IsSound env.externals f uuid now r s h.0 h.1;
    change_kept = λ parts f id p s h. update_contract-IsSound env.externals id p f s h;
    deletion_kept = delete_contract-IsSound env.externals;
    still_careful = still-IsCareful;
  }

  -- In every state that careful requests reach from sound contract tables, the contract tables are
  -- sound. The cryptography is lawful, and the database returns rows in the order of insertion.
  pub reached-IsSound :
      (start s : Server)
      → IsSound env.externals start.db
      → Reach env start s
      → IsSound env.externals s.db
  reached-IsSound start s v here = v
  reached-IsSound start s v (later before (answering r h)) =
      serve-kept (IsSound env.externals) env IsCareful IsSound-Upholds r _ h
        (reached-IsSound start _ v before)

  -- In every state that careful requests reach from sound contract tables, a verification page
  -- that is shown reports every signature as valid and none as tampered with, and the final hash
  -- as valid exactly if the contract is fully signed. The cryptography is lawful, and the database
  -- returns rows in the order of insertion.
  pub reached-verify_contract :
      (start s t : Server) (v : ContractVisit) (id code uuid : Text) (page : Page ContractProof)
      → IsSound env.externals start.db
      → Reach env start s
      → verify_contract env.externals v id code (some uuid) s ≡ (done page, t)
      → (c : Contract) × (p : ContractProof) × (page ≡ shown p)
        × (find (is_contract id) s.db.contracts ≡ some c)
        × (p.contract_content ≡ c.content)
        × All (λ w. (w.valid ≡ true) × (w.tampered ≡ false)) p.verified_signatures
        × (p.final_hash_valid ≡ p.fully_signed)
  reached-verify_contract start s t v id code uuid page sound reach h =
      verify_contract-IsConsistent env.externals v id code uuid s t page faithful.in_order
        (reached-IsSound start s sound reach).consistent h
