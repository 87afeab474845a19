-- ===== src/Routes/HistoryTests.antt =====
-- A history of the small server: the only slot of its contract is signed.
use invoices_contracts.Base.{
  List, [], ◌∷◌, ◌≡◌, ℕ, refl, ap, subst, true, false, some, arith, ascii, find, All,
}
use invoices_contracts.Models.{Contract}
use invoices_contracts.Database.{is_contract}
use invoices_contracts.Server.{Server, done, failed}
use invoices_contracts.Crypto.Toy.{toy-IsLawful, zeros-IsBytes, length-zeros}
use invoices_contracts.Contracts.World.{world, start, visit, inputs, ask}
use invoices_contracts.Contracts.Pages.{ContractProof, shown}
use invoices_contracts.Contracts.Sound.{IsSound}
use invoices_contracts.Contracts.SignSound.{IsFaithful, IsCalm}
use invoices_contracts.Contracts.Tests.{
  after, signs, start-IsConsistent, bound, seen, proof, verifies, code,
}
use invoices_contracts.Routes.{
  Reply, Request, public, protected, delete_of_contract, serve_all, post_signing, signing_reply,
  plain, handled, serve_public, serve,
}
use invoices_contracts.Routes.History.{
  Reach, here, later, answering, reached-IsSound, reached-verify_contract,
}
use invoices_contracts.Routes.Owned.{serve_all-IsOwned}
use invoices_contracts.Contracts.Owned.{IsOwned}
use invoices_contracts.Routes.Tests.{small, late}

world-IsFaithful : IsFaithful world
world-IsFaithful = record { lawful = toy-IsLawful; in_order = λ sigs. refl }

inputs-IsCalm : IsCalm inputs
inputs-IsCalm = record {
  bytes = zeros-IsBytes 32;
  long = length-zeros 32;
  slot_updated = refl;
  contract_updated = refl;
}

start-IsSound : IsSound world start.db
start-IsSound = record { consistent = start-IsConsistent; below = ((λ m e. ground arith), tt) }

served : (serve small (public (post_signing inputs (ascii "c") ask)) start).1 ≡ after
unfolding serve serve_public handled
served =
    ap
      (λ r.
        (elim (r.0) as (λ o. Reply ℕ × Server) [
          | done a ↦ (signing_reply a, r.1)
          | failed e ↦ (plain e, r.1)
        ]).1)
      signs

after-Reach : Reach small start after
after-Reach =
    subst (Reach small start) served
      (later here (answering (public (post_signing inputs (ascii "c") ask)) (inputs-IsCalm, bound)))

reached-IsSound_example : IsSound world after.db
reached-IsSound_example =
    reached-IsSound small world-IsFaithful start after start-IsSound after-Reach

reached-verify_contract_example :
    (c : Contract) × (p : ContractProof) × (shown proof ≡ shown p)
    × (find (is_contract (ascii "c")) after.db.contracts ≡ some c)
    × (p.contract_content ≡ c.content)
    × All (λ w. (w.valid ≡ true) × (w.tampered ≡ false)) p.verified_signatures
    × (p.final_hash_valid ≡ p.fully_signed)
reached-verify_contract_example =
    reached-verify_contract small world-IsFaithful start after seen visit (ascii "c") code
      (ascii "u") (shown proof) start-IsSound after-Reach verifies

-- The contract is signed, and a deletion is asked for.
abbrev attempts : List Request
attempts =
    public (post_signing inputs (ascii "c") ask)
    ∷ (protected late (delete_of_contract visit.faults (ascii "c")) ∷ [])

start-IsOwned : IsOwned start.db
start-IsOwned = record { slots = λ j h. h; signatures = λ j h. absurd (ground arith) }

serve_all-IsOwned_example : IsOwned (serve_all small attempts start).db
serve_all-IsOwned_example = serve_all-IsOwned small refl attempts start start-IsOwned
