-- ===== src/Contracts/Schedules.antt =====
-- src/handlers/contracts.rs: however signings interleave, a contract that is marked as signed has as
-- many signatures as it requires; and a signing that runs alone is one such schedule.
use invoices_contracts.Base.{
  ℕ, ◌≡◌, sym, subst, Bool, true, false, Text, nat_eq, ◌==◌, text_eq, if◌then◌else◌,
}
use invoices_contracts.Models.{SignContractRequest, SignContractResponse}
use invoices_contracts.Database.{Database}
use invoices_contracts.Server.{Server, done, >>=-done, write}
use invoices_contracts.Server.Keeps.{pure-done}
use invoices_contracts.Contracts.Access.{Externals}
use invoices_contracts.Contracts.Sign.{SignInputs, insert_new, commit, prepare, sign_contract}
use invoices_contracts.Contracts.Interleaved.{
  Signing, Pc, unread, reads, inserts, fills, counts, System, Turn, turn, Schedule, begin, next,
}
use invoices_contracts.Contracts.Covered.{IsCovered, Knows, Knows-grown}
use invoices_contracts.Contracts.CoveredMoves.{Move-IsKept}

-- The tables are covered, and every request behind its reads knows what it needs.
record IsSafe (s : System) : Type 0 where
  covered : IsCovered s.server.db
  known : (n : ℕ) → Knows s.server.db (s.pc n)

Knows-either :
    (db : Database) (b : Bool) (p q : Pc) → Knows db p → Knows db q → Knows db (if b then p else q)
Knows-either db true p q hp hq = hp
Knows-either db false p q hp hq = hq

module _ (ext : Externals) where
  Turn-IsSafe : (s t : System) → Turn ext s t → IsSafe s → IsSafe t
  Turn-IsSafe s _ (turn n {t} {p} move) safe =
      let kept = Move-IsKept ext s.server t (s.pc n) p move safe.covered (safe.known n) in
      record {
        covered = kept.covered;
        known = λ m.
            Knows-either t.db (m == n) p (s.pc m) kept.knows
              (Knows-grown s.server.db t.db (s.pc m) kept.grown (safe.known m));
      }

  Schedule-IsSafe : (start s : System) → Schedule ext start s → IsSafe start → IsSafe s
  Schedule-IsSafe start s begin safe = safe
  Schedule-IsSafe start s (next before step) safe =
      Turn-IsSafe _ s step (Schedule-IsSafe start _ before safe)

  -- Where any number of signings start on covered tables, and take their turns in any order, with
  -- any faults, each reading in one step and making its three writes in further ones, no contract
  -- ever counts more signatures than are stored, and one that is marked as signed has at least as
  -- many as it requires.
  pub Schedule-IsCovered :
      (start s : System)
      → IsCovered start.server.db
      → ((n : ℕ) → start.pc n ≡ unread)
      → Schedule ext start s
      → IsCovered s.server.db
  Schedule-IsCovered start s v fresh schedule =
      (Schedule-IsSafe start s schedule (record {
        covered = v;
        known = λ n. subst (Knows start.server.db) (sym (fresh n)) tt;
      })).covered

  abbrev pub alone : Server → System
  alone s = record { server = s; pc = λ n. unread }

  -- A signing that runs alone and is done is one schedule of the interleaved model, which ends on
  -- the same server.
  pub sign_contract-Schedule :
      (i : SignInputs) (id : Text) (request : SignContractRequest) (s t : Server)
      (r : SignContractResponse)
      → sign_contract ext i id request s ≡ (done r, t)
      → (end : System) × Schedule ext (alone s) end × (end.server ≡ t)
  unfolding sign_contract commit
  sign_contract-Schedule i id request s t r e =
      let (plan, s₁, e₁, r₁) = >>=-done (prepare ext i id request) _ s t r e in
      let (_, s₂, e₂, r₂) =
        >>=-done (commit ext i.visit.faults id request.slot_id plan.0 plan.1 plan.2) _ s₁ t r r₁ in
      let (_, a, f₁, g₁) = >>=-done (insert_new ext _ _) _ s₁ s₂ tt e₂ in
      let (_, b, f₂, f₃) = >>=-done (write _ _) _ a s₂ tt g₁ in
      let x : Signing = record {
        inputs = i;
        id = id;
        request = request;
        contract = plan.0;
        new = plan.1;
        hash = plan.2;
      } in
      (
        _,
        next
            (next (next (next begin (turn 0 (reads x e₁))) (turn 0 (inserts x f₁)))
              (turn 0 (fills x f₂)))
            (turn 0 (counts x f₃)),
        sym (pure-done _ s₂ t r r₂).1,
      )
