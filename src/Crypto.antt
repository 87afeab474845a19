-- ===== src/Crypto.antt =====
-- src/crypto.rs: signing keys, signatures of contracts, verification codes and hashes.
--
-- The crates hex, sha2 and ed25519_dalek are the parameter `Primitives`; what the code relies on is
-- `IsLawful`. The random bytes of a key and the draws of a code are arguments. A panic is `none`.
pub mod Signatures
pub mod Code
pub mod FinalHash
pub mod Toy
mod Tests
use invoices_contracts.Base.{
  ℕ, zero, suc, ◌+◌, ◌<◌, ◌≡◌, Bool, true, false, not, List, [], ◌∷◌, ◌++◌, Option, none, some,
  Text, ascii, length, ◌==◌, nat_eq, get_elem?, take, drop, All, if◌then◌else◌,
}

-- Bytes in and bytes out. `valid_key` is whether `VerifyingKey::from_bytes` returns `Ok`.
pub record Primitives : Type 0 where
  pub hex_encode : Text → Text
  pub hex_decode : Text → Option Text
  pub sha256 : Text → Text
  pub verifying_key : Text → Text
  pub sign : Text → Text → Text
  pub valid_key : Text → Bool
  pub verify : Text → Text → Text → Bool

abbrev pub IsBytes : Text → Type 0
IsBytes = All (λ b. b < 256)

-- Documented behaviour: hex is read back, keys and signatures have 32 and 64 bytes, and the
-- signature that a key makes is accepted by its verifying key.
pub record IsLawful (p : Primitives) : Type 0 where
  pub decode-encode :
      (bytes : Text) → IsBytes bytes → p.hex_decode (p.hex_encode bytes) ≡ some bytes
  pub key-IsBytes : (key : Text) → IsBytes (p.verifying_key key)
  pub signature-IsBytes : (key message : Text) → IsBytes (p.sign key message)
  pub length-key : (key : Text) → length key ≡ 32 → length (p.verifying_key key) ≡ 32
  pub length-signature : (key message : Text) → length (p.sign key message) ≡ 64
  pub key_valid : (key : Text) → length key ≡ 32 → p.valid_key (p.verifying_key key) ≡ true
  pub verify-sign :
      (key message : Text)
      → length key ≡ 32
      → p.verify (p.verifying_key key) message (p.sign key message) ≡ true

-- The errors of `sign_contract`, whose messages differ.
pub data SignError : Type 0 where
  invalid_hex key_length : SignError

pub data SignResult : Type 0 where
  ok : Text → SignResult
  err : SignError → SignResult

-- `format!("{}:{}:{}", …)`
unfoldable pub message : Text → Text → Text → Text
message contract_id content_hash timestamp =
    contract_id ++ (b':' ∷ (content_hash ++ (b':' ∷ timestamp)))

module _ (p : Primitives) where
  -- The public and the private key of the random bytes of a signing key.
  unfoldable pub generate_keypair : Text → Text × Text
  generate_keypair seed = (p.hex_encode (p.verifying_key seed), p.hex_encode seed)

  unfoldable pub sign_contract : Text → Text → Text → Text → SignResult
  sign_contract private_key_hex contract_id content_hash timestamp =
      elim (p.hex_decode private_key_hex) [
        | none ↦ err invalid_hex
        | some key ↦
            if not (length key == 32)
            then err key_length
            else ok (p.hex_encode (p.sign key (message contract_id content_hash timestamp)))
      ]

  unfoldable pub verify_signature : Text → Text → Text → Text → Text → Bool
  verify_signature public_key_hex signature_hex contract_id content_hash timestamp =
      elim (p.hex_decode public_key_hex) [
        | none ↦ false
        | some key ↦
            if not (length key == 32)
            then false
            else if not (p.valid_key key)
            then false
            else elim (p.hex_decode signature_hex) [
              | none ↦ false
              | some signature ↦
                  if not (length signature == 64)
                  then false
                  else p.verify key (message contract_id content_hash timestamp) signature
            ]
      ]

  unfoldable pub hash_content : Text → Text
  hash_content content = p.hex_encode (p.sha256 content)

-- The loop of `generate_final_hash`; an index out of range panics.
unfoldable pub combine : Text → List Text → List Text → List Text → Option Text
combine combined [] stamps hashes = some combined
combine combined (s ∷ ss) (t ∷ ts) (c ∷ cs) = combine (((combined ++ s) ++ t) ++ c) ss ts cs
combine combined (s ∷ ss) [] hashes = none
combine combined (s ∷ ss) (t ∷ ts) [] = none

unfoldable pub generate_final_hash :
    Primitives → Text → List Text → List Text → List Text → Option Text
unfolding combine
generate_final_hash p content signature_hashes signed_at_timestamps content_hashes =
    elim (combine content signature_hashes signed_at_timestamps content_hashes) [
      | none ↦ none
      | some combined ↦ some (hash_content p combined)
    ]

abbrev pub charset : Text
charset = ascii "ABCDEFGHJKLMNPQRSTUVWXYZ23456789"

-- `(first..first + n).map(…).collect()`, where `draw i` is what the generator gives for `i`.
unfoldable pub code_chars : (ℕ → ℕ) → ℕ → ℕ → Option Text
code_chars draw first zero = some []
code_chars draw first (suc n) = elim (get_elem? charset (draw first)) [
  | none ↦ none
  | some c ↦ elim (code_chars draw (suc first) n) [ none ↦ none | some cs ↦ some (c ∷ cs) ]
]

-- `format!("{}-{}-{}", &code[0..4], &code[4..8], &code[8..12])`
unfoldable pub dashed : Text → Text
dashed code = take 4 code ++ (b'-' ∷ (take 4 (drop 4 code) ++ (b'-' ∷ take 4 (drop 8 code))))

unfoldable pub generate_verification_code : (ℕ → ℕ) → Option Text
unfolding code_chars dashed
generate_verification_code draw = elim (code_chars draw 0 12) [
  | none ↦ none
  | some code ↦ some (dashed code)
]
