-- ===== src/Auth/Toy.antt =====
-- Toy services with the documented behaviour of the crates, and requests at a small clock: a token
-- lists its claims, and a hash is the password behind the letter h.
use invoices_contracts.Base.{
  ℕ, zero, suc, ◌≡◌, ◌/◌, subst, ◌∙◌, true, [], ◌∷◌, Option, none, some, arith, Text, ascii, ◌==◌,
  text_eq, ltb, if◌then◌else◌,
}
use invoices_contracts.Base.Int.{ℤ, pos, negsuc}
use invoices_contracts.RateLimit.{Time}
use invoices_contracts.Crypto.Toy.{toy}
use invoices_contracts.Models.{Claims}
use invoices_contracts.Auth.Config.{JwtConfig}
use invoices_contracts.Auth.Store.{
  Services, Condition, fine, Call, Decoded, valid, expired, invalid, second,
}
use invoices_contracts.Auth.Extract.{Parts}

-- The id of a user, behind its sign.
abbrev write_id : ℤ → Text → Text
write_id (pos n) text = 0 ∷ (n ∷ text)
write_id (negsuc n) text = 1 ∷ (n ∷ text)

abbrev toy_encode : Text → Claims → Option Text
toy_encode secret c = some (c.exp ∷ (c.iat ∷ write_id c.user_id c.email))

abbrev in_time : ℕ → Time → Claims → Decoded
in_time exp now c = if ltb (now / second) exp then valid c else expired

abbrev read_id : ℕ → ℕ → ℤ
read_id zero n = pos n
read_id (suc sign) n = negsuc n

abbrev toy_decode : Text → Text → Time → Decoded
toy_decode secret (exp ∷ (iat ∷ (sign ∷ (n ∷ email)))) now =
    in_time exp now (record { user_id = read_id sign n; email = email; exp = exp; iat = iat })
toy_decode secret token now = invalid

abbrev pub services : Services
services = record {
  crypto = toy;
  to_rfc3339 = λ t. t ∷ [];
  encode = toy_encode;
  decode = toy_decode;
  verify = λ password hash. some (hash == b'h' ∷ password);
  hash = λ salt password. some (b'h' ∷ password);
  debug_lower = λ e. ascii "no such table";
}

abbrev pub config : JwtConfig
config = record { secret = ascii "s"; expiry_minutes = 15; refresh_expiry_days = 7 }

abbrev pub calm : Call → Condition
calm call = fine

-- A request at a time, with the cookies of a header.
abbrev pub request : Time → Option Text → Parts
request now header = record {
  cookie = header;
  authorization = none;
  decoded_at = now;
  looked_up_at = now;
  issued_at = now;
  jwt_stored_at = now;
  refresh_stored_at = now;
  bytes = now ∷ [];
  conditions = calm;
}

toy_reads :
    (secret email : Text) (exp iat : ℕ) (id : ℤ) (now : Time)
    → ltb (now / second) exp ≡ true
    → toy_decode secret (exp ∷ (iat ∷ write_id id email)) now
      ≡ valid (record { user_id = id; email = email; exp = exp; iat = iat })
toy_reads secret email exp iat (pos n) now early = ground arith
toy_reads secret email exp iat (negsuc n) now early = ground arith

pub toy_decodes :
    (secret token : Text) (claims : Claims) (now : Time)
    → toy_encode secret claims ≡ some token
    → ltb (now / second) claims.exp ≡ true
    → toy_decode secret token now ≡ valid claims
toy_decodes secret token claims now e early =
    let written : (claims.exp ∷ (claims.iat ∷ write_id claims.user_id claims.email)) ≡ token =
      ground arith in
    let same : valid (record {
      user_id = claims.user_id;
      email = claims.email;
      exp = claims.exp;
      iat = claims.iat;
    })
        ≡ valid claims =
      ground arith in
    subst (λ t. toy_decode secret t now ≡ valid claims) written
      (toy_reads secret claims.email claims.exp claims.iat claims.user_id now early ∙ same)
