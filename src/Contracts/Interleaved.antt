-- ===== src/Contracts/Interleaved.antt =====
-- src/handlers/contracts.rs: any number of requests to `sign_contract` at once. Each reads first,
-- which is one step here, and then makes its three writes, with the steps of the others anywhere
-- between, since no transaction joins them. Only signings run.
use invoices_contracts.Base.{ℕ, ◌≡◌, Option, Text, nat_eq, ◌==◌, text_eq, if◌then◌else◌}
use invoices_contracts.Models.{Contract, CreateContractSignature, SignContractRequest}
use invoices_contracts.Database.{fill_slot, update_contract_row}
use invoices_contracts.Server.{
  Server, StatusCode, done, failed, write, update_slot_call, update_contract_call,
}
use invoices_contracts.Contracts.Access.{Externals}
use invoices_contracts.Contracts.Sign.{SignInputs, insert_new, prepare}
use invoices_contracts.Contracts.Commit.{counted}

-- A signing that has read: its request, the contract as it was then, the new signature and the
-- final hash.
pub record Signing : Type 0 where
  pub inputs : SignInputs
  pub id : Text
  pub request : SignContractRequest
  pub contract : Contract
  pub new : CreateContractSignature
  pub hash : Option Text

-- Where a request stands: before its reads, before each of its three writes, or answered.
pub data Pc : Type 0 where
  unread answered : Pc
  planned inserted filled : Signing → Pc

module _ (ext : Externals) where
  pub data Move (s : Server) : Pc → Server → Pc → Type 0 where
    reads :
        (x : Signing) {t : Server}
        → prepare ext x.inputs x.id x.request s ≡ (done (x.contract, x.new, x.hash), t)
        → Move s unread t (planned x)
    refuses :
        (i : SignInputs) (id : Text) (request : SignContractRequest) (e : StatusCode) {t : Server}
        → prepare ext i id request s ≡ (failed e, t)
        → Move s unread t answered
    inserts :
        (x : Signing) {t : Server}
        → insert_new ext x.inputs.visit.faults x.new s ≡ (done tt, t)
        → Move s (planned x) t (inserted x)
    insert_fails :
        (x : Signing) (e : StatusCode) {t : Server}
        → insert_new ext x.inputs.visit.faults x.new s ≡ (failed e, t)
        → Move s (planned x) t answered
    fills :
        (x : Signing) {t : Server}
        → write (x.inputs.visit.faults update_slot_call) (fill_slot x.request.slot_id) s
          ≡ (done tt, t)
        → Move s (inserted x) t (filled x)
    fill_fails :
        (x : Signing) (e : StatusCode) {t : Server}
        → write (x.inputs.visit.faults update_slot_call) (fill_slot x.request.slot_id) s
          ≡ (failed e, t)
        → Move s (inserted x) t answered
    counts :
        (x : Signing) {t : Server}
        → write
            (x.inputs.visit.faults update_contract_call)
            (update_contract_row x.id (counted ext x.contract x.hash))
            s
          ≡ (done tt, t)
        → Move s (filled x) t answered
    count_fails :
        (x : Signing) (e : StatusCode) {t : Server}
        → write
            (x.inputs.visit.faults update_contract_call)
            (update_contract_row x.id (counted ext x.contract x.hash))
            s
          ≡ (failed e, t)
        → Move s (filled x) t answered

-- The server, and where every request stands.
pub record System : Type 0 where
  pub server : Server
  pub pc : ℕ → Pc

abbrev pub moved : (ℕ → Pc) → ℕ → Pc → ℕ → Pc
moved pc n p m = if m == n then p else pc m

module _ (ext : Externals) where
  pub data Turn (s : System) : System → Type 0 where
    turn :
        (n : ℕ) {t : Server} {p : Pc}
        → Move ext s.server (s.pc n) t p
        → Turn s (record { server = t; pc = moved s.pc n p })

  pub data Schedule (start : System) : System → Type 0 where
    begin : Schedule start start
    next : {s t : System} → Schedule start s → Turn s t → Schedule start t
