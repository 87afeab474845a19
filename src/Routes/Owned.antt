-- ===== src/Routes/Owned.antt =====
-- src/main.rs, with foreign keys enforced: over every sequence of requests, every slot and every
-- signature is of a stored contract.
use invoices_contracts.Base.{◌≡◌, true, sym, ap, ◌∙◌, List, [], ◌∷◌, any}
use invoices_contracts.Database.{Database, is_contract, slot_of, signature_of}
use invoices_contracts.Server.{Server}
use invoices_contracts.Contracts.Owned.{IsOwned}
use invoices_contracts.Contracts.OwnedKept.{
  sign_contract-IsOwned, create_contract-IsOwned, update_contract-IsOwned, delete_contract-IsOwned,
}
use invoices_contracts.Routes.{Environment, Request, serve, serve_all}
use invoices_contracts.Routes.Access.{SameBusiness, OfBusiness-Stable}
use invoices_contracts.Routes.Upholds.{Upholds, serve-kept}

SameBusiness-IsOwned :
    (before after : Database) → SameBusiness before after → IsOwned before → IsOwned after
SameBusiness-IsOwned before after same o = record {
  slots = λ j h.
      ap (any (is_contract j)) same.contracts
      ∙ o.slots j (ap (any (slot_of j)) (sym same.slots) ∙ h);
  signatures = λ j h.
      ap (any (is_contract j)) same.contracts
      ∙ o.signatures j (ap (any (signature_of j)) (sym same.signatures) ∙ h);
}

module _ {D V F : Type 0} (env : Environment D V F)
    (enforced : env.externals.foreign_keys ≡ true) where
  IsOwned-Upholds : Upholds env IsOwned (λ r db. Unit {0})
  IsOwned-Upholds = record {
    stable = OfBusiness-Stable IsOwned SameBusiness-IsOwned;
    customers_kept = λ rows db o. record { slots = o.slots; signatures = o.signatures };
    invoices_kept = λ rows db o. record { slots = o.slots; signatures = o.signatures };
    signing_kept = λ i id request s h o. sign_contract-IsOwned env.externals i id request s o;
    creation_kept =
        λ parts f uuid now r s h o. create_contract-IsOwned env.externals f uuid now r s o;
    change_kept = λ parts f id p s h o. (update_contract-IsOwned id p f).held s o;
    deletion_kept = λ f id s o. delete_contract-IsOwned env.externals f id s enforced o;
    still_careful = λ parts r before after same h. h;
  }

  -- Where foreign keys are enforced, and every slot and every signature is of a stored contract,
  -- this stays so whatever requests follow to whatever routes, with any faults of the database.
  pub serve_all-IsOwned :
      (rs : List Request) (s : Server) → IsOwned s.db → IsOwned (serve_all env rs s).db
  unfolding serve_all
  serve_all-IsOwned [] s o = o
  serve_all-IsOwned (r ∷ rs) s o =
      serve_all-IsOwned rs (serve env r s).1
        (serve-kept IsOwned env (λ r db. Unit {0}) IsOwned-Upholds r s tt o)
