-- ===== src/Auth/Config.antt =====
-- src/config.rs: `JwtConfig`, with the environment variable and `to_lowercase` as arguments. A
-- panic is `none`.
use invoices_contracts.Base.{
  ℕ, ◌*◌, Bool, true, false, ◌||◌, List, [], ◌∷◌, Option, none, some, Text, ascii, ◌==◌, text_eq,
  nat_eq, any, length, ltb, ◌&&◌, if◌then◌else◌,
}

pub record JwtConfig : Type 0 where
  pub secret : Text
  pub expiry_minutes : ℕ
  pub refresh_expiry_days : ℕ

abbrev pub min_secret_length : ℕ
min_secret_length = 32

abbrev pub weak_secrets : List Text
weak_secrets =
    ascii "secret"
    ∷ (ascii "password"
        ∷ (ascii "changeme"
            ∷ (ascii "default"
                ∷ (ascii "test"
                    ∷ (ascii "jwt_secret"
                        ∷ (ascii "mySecretKey"
                            ∷ (ascii "supersecret"
                                ∷ (ascii "12345678901234567890123456789012" ∷ []))))))))

-- `text.starts_with(prefix)`
unfoldable pub starts_with : Text → Text → Bool
starts_with [] text = true
starts_with (a ∷ prefix) [] = false
starts_with (a ∷ prefix) (b ∷ text) = (a == b) && starts_with prefix text

-- The test of the loop over `WEAK_SECRETS`.
unfoldable pub is_weak : Text → Text → Bool
unfolding starts_with
is_weak secret_lower weak = (secret_lower == weak) || starts_with weak secret_lower

-- Whether the secret passes; the code panics if it does not.
unfoldable pub validate_secret_strength : (Text → Text) → Text → Bool
validate_secret_strength to_lowercase secret =
    if ltb (length secret) min_secret_length
    then false
    else if any (is_weak (to_lowercase secret)) weak_secrets
    then false
    else true

-- `JwtConfig::new()`, where `variable` is the value of JWT_SECRET, if it is set.
unfoldable pub new_config : (Text → Text) → Option Text → Option JwtConfig
new_config to_lowercase none = none
new_config to_lowercase (some secret) =
    if validate_secret_strength to_lowercase secret
    then some (record { secret = secret; expiry_minutes = 15; refresh_expiry_days = 7 })
    else none

abbrev pub expiry_seconds : JwtConfig → ℕ
expiry_seconds c = c.expiry_minutes * 60

abbrev pub refresh_expiry_seconds : JwtConfig → ℕ
refresh_expiry_seconds c = c.refresh_expiry_days * 24 * 60 * 60

abbrev pub cookie_name : Text
cookie_name = ascii "jwt"

abbrev pub refresh_cookie_name : Text
refresh_cookie_name = ascii "refresh_token"
