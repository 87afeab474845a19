-- ===== src/Models.antt =====
-- src/models.rs and src/schema.rs: the rows of the contract tables and the requests about them.
-- `i32` is an integer, `String` its bytes, and a nullable column an `Option`.
mod Accounts
mod Billing
pub mod Json
pub use Accounts.*
pub use Billing.*
use invoices_contracts.Base.{Bool, List, Option, Text}
use invoices_contracts.Base.Int.{ℤ}

pub record Customer : Type 0 where
  pub id : Option Text
  pub name : Text
  pub address : Option Text
  pub currency : Option Text
  pub is_active : Option Bool

pub record Contract : Type 0 where
  pub id : Option Text
  pub customer_id : Text
  pub contract_type : Text
  pub title : Text
  pub content : Text
  pub created_at : Text
  pub expires_at : Option Text
  pub status : Text
  pub required_signatures : ℤ
  pub completed_signatures : ℤ
  pub final_hash : Option Text

-- The fields of a row, as an insertion or an update gives them.
pub record ContractPayload : Type 0 where
  pub id : Option Text
  pub customer_id : Text
  pub contract_type : Text
  pub title : Text
  pub content : Text
  pub created_at : Text
  pub expires_at : Option Text
  pub status : Text
  pub required_signatures : ℤ
  pub completed_signatures : ℤ
  pub final_hash : Option Text

pub record ContractSignature : Type 0 where
  pub id : ℤ
  pub contract_id : Text
  pub verification_code : Text
  pub signature_hash : Text
  pub public_key : Text
  pub content_hash : Text
  pub signed_at : Text
  pub signer_name : Option Text
  pub client_ip : Option Text
  pub user_agent : Option Text
  pub slot_id : Option ℤ

-- A signature before the table has given it an id.
pub record CreateContractSignature : Type 0 where
  pub contract_id : Text
  pub verification_code : Text
  pub signature_hash : Text
  pub public_key : Text
  pub content_hash : Text
  pub signed_at : Text
  pub signer_name : Option Text
  pub client_ip : Option Text
  pub user_agent : Option Text
  pub slot_id : Option ℤ

pub record ContractSignatureSlot : Type 0 where
  pub id : Option ℤ
  pub contract_id : Text
  pub slot_name : Option Text
  pub slot_order : ℤ
  pub is_filled : Bool

pub record CreateContractSignatureSlot : Type 0 where
  pub contract_id : Text
  pub slot_name : Option Text
  pub slot_order : ℤ
  pub is_filled : Bool

pub record SignContractRequest : Type 0 where
  pub customer_uuid : Text
  pub slot_id : ℤ
  pub signer_name : Option Text
  pub accepted : Bool

pub record SignatureProgress : Type 0 where
  pub completed : ℤ
  pub required : ℤ

pub record SignContractResponse : Type 0 where
  pub success : Bool
  pub verification_code : Text
  pub signed_at : Text
  pub progress : SignatureProgress
  pub fully_signed : Bool

pub record SignatureSlotDefinition : Type 0 where
  pub name : Option Text
  pub order : ℤ

pub record CreateContractRequest : Type 0 where
  pub customer_id : Text
  pub contract_type : Text
  pub title : Text
  pub content : Text
  pub expires_at : Option Text
  pub signature_slots : List SignatureSlotDefinition
