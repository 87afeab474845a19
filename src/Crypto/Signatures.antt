-- ===== src/Crypto/Signatures.antt =====
-- src/crypto.rs: signatures of contracts and the message that is signed.
use invoices_contracts.Base.{◌≡◌, refl, ◌≢◌, true, [], ◌∷◌, ◌++◌, arith, Text, length, All}
use invoices_contracts.Crypto.{
  Primitives, IsLawful, IsBytes, ok, message, generate_keypair, sign_contract, verify_signature,
}

-- The signature made with the private key of a fresh pair is accepted under the public key of that
-- pair, for every contract, hash and time. The cryptography is lawful and the seed is 32 bytes.
pub verify-sign :
    (p : Primitives) (seed id hash time : Text)
    → IsLawful p
    → IsBytes seed
    → length seed ≡ 32
    → (signature : Text) × (sign_contract p (generate_keypair p seed).1 id hash time ≡ ok signature)
      × (verify_signature p (generate_keypair p seed).0 signature id hash time ≡ true)
unfolding sign_contract generate_keypair verify_signature
verify-sign p seed id hash time l b e =
    let text = message id hash time in
    (
      p.hex_encode (p.sign seed text),
      ground (arith, l.decode-encode seed b),
      ground (
        arith,
        l.decode-encode (p.verifying_key seed) (l.key-IsBytes seed),
        l.decode-encode (p.sign seed text) (l.signature-IsBytes seed text),
        l.length-key seed e,
        l.length-signature seed text,
        l.key_valid seed e,
        l.verify-sign seed text e,
      ),
    )

split_at_colon :
    (i i' r r' : Text)
    → All (λ b. b ≢ b':') i
    → All (λ b. b ≢ b':') i'
    → i ++ b':' ∷ r ≡ i' ++ b':' ∷ r'
    → (i ≡ i') × (r ≡ r')
split_at_colon [] [] r r' c c' e = (refl, ground arith)
split_at_colon [] (b ∷ i') r r' c c' e = absurd (ground arith)
split_at_colon (b ∷ i) [] r r' c c' e = absurd (ground arith)
split_at_colon (b ∷ i) (b' ∷ i') r r' c c' e = ground (arith, split_at_colon i i' r r' c.1 c'.1)

-- Two messages agree only if their ids, hashes and times all do, where neither ids nor hashes hold
-- a colon.
pub message-injective :
    (i i' h h' t t' : Text)
    → All (λ b. b ≢ b':') i
    → All (λ b. b ≢ b':') i'
    → All (λ b. b ≢ b':') h
    → All (λ b. b ≢ b':') h'
    → message i h t ≡ message i' h' t'
    → (i ≡ i') × (h ≡ h') × (t ≡ t')
unfolding message
message-injective i i' h h' t t' ci ci' ch ch' e =
    let (same_id, rest) = split_at_colon i i' _ _ ci ci' e in
    let (same_hash, same_time) = split_at_colon h h' t t' ch ch' rest in
    (same_id, same_hash, same_time)
