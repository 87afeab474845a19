-- ===== src/Models/Accounts.antt =====
-- src/models.rs and src/schema.rs: the rows of the tables of users and tokens. No struct of the
-- source stands for a row of jwt_tokens; it has the columns of the table.
use invoices_contracts.Base.{ℕ, Bool, Text}
use invoices_contracts.Base.Int.{ℤ}

pub record User : Type 0 where
  pub id : ℤ
  pub name : Text
  pub email : Text
  pub address : Text
  pub tax_id : Text
  pub password : Text

pub record CreateFullUser : Type 0 where
  pub name : Text
  pub email : Text
  pub address : Text
  pub tax_id : Text
  pub password : Text

pub record JwtToken : Type 0 where
  pub id : ℤ
  pub user_id : ℤ
  pub token_hash : Text
  pub expires_at : Text
  pub created_at : Text
  pub revoked : Bool

pub record CreateJwtToken : Type 0 where
  pub user_id : ℤ
  pub token_hash : Text
  pub expires_at : Text
  pub created_at : Text

pub record RefreshToken : Type 0 where
  pub id : ℤ
  pub user_id : ℤ
  pub token_hash : Text
  pub expires_at : Text
  pub created_at : Text
  pub revoked : Bool

pub record CreateRefreshToken : Type 0 where
  pub user_id : ℤ
  pub token_hash : Text
  pub expires_at : Text
  pub created_at : Text

-- The payload of an access token; times are seconds since the epoch.
pub record Claims : Type 0 where
  pub user_id : ℤ
  pub email : Text
  pub exp : ℕ
  pub iat : ℕ
