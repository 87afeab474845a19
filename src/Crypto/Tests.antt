-- ===== src/Crypto/Tests.antt =====
-- The theorems on signatures, codes and hashes at concrete inputs.
use invoices_contracts.Base.{
  ◌+◌, ◌%◌, ◌≡◌, refl, true, [], ◌∷◌, ◌++◌, some, arith, Text, ascii, length, All, map,
}
use invoices_contracts.Crypto.{
  generate_final_hash, hash_content, ok, generate_keypair, sign_contract, verify_signature, charset,
  generate_verification_code,
}
use invoices_contracts.Crypto.Toy.{length-zeros, zeros-IsBytes, toy, toy-IsLawful, seed}
use invoices_contracts.Crypto.FinalHash.{entries, final_hash-entries}
use invoices_contracts.Crypto.Signatures.{verify-sign, message-injective}
use invoices_contracts.Crypto.Code.{IsClear, code_format, code-injective, drawn, index_of}

verify-sign_example :
    (signature : Text) × (sign_contract toy
        (generate_keypair toy seed).1
        (ascii "id")
        (ascii "ab")
        (ascii "t")
      ≡ ok signature)
    × (verify_signature toy
          (generate_keypair toy seed).0
          signature
          (ascii "id")
          (ascii "ab")
          (ascii "t")
        ≡ true)
verify-sign_example =
    verify-sign toy seed (ascii "id") (ascii "ab") (ascii "t") toy-IsLawful (zeros-IsBytes 32)
      (length-zeros 32)

message-injective_example :
    (ascii "a" ≡ ascii "a") × (ascii "b" ≡ ascii "b") × (ascii "c:d" ≡ ascii "c:d")
message-injective_example =
    message-injective (ascii "a") (ascii "a") (ascii "b") (ascii "b") (ascii "c:d") (ascii "c:d")
      (omega arith) (omega arith) (omega arith) (omega arith) refl

code_of_counting : generate_verification_code (λ i. i) ≡ some (ascii "ABCD-EFGH-JKLM")
unfolding generate_verification_code
code_of_counting = refl

code-injective_example : drawn (λ i. i % 32) 0 12 ≡ drawn (λ i. (i + 32) % 32) 0 12
unfolding generate_verification_code
code-injective_example =
    code-injective (λ i. i % 32) (λ i. (i + 32) % 32) (λ i. omega arith) (λ i. omega arith) refl

code_format_example :
    (x y z : Text) × (generate_verification_code (λ i. i % 32)
      ≡ some (x ++ (b'-' ∷ (y ++ (b'-' ∷ z)))))
    × (length x ≡ 4)
    × (length y ≡ 4)
    × (length z ≡ 4)
    × All IsClear (x ++ (y ++ z))
    × (map (index_of charset) (x ++ (y ++ z)) ≡ drawn (λ i. i % 32) 0 12)
code_format_example = code_format (λ i. i % 32) (λ i. omega arith)

-- Two signatures, each a text for all of its parts.
final_hash-entries_example :
    generate_final_hash toy
      (ascii "rent")
      (ascii "a" ∷ (ascii "b" ∷ []))
      (ascii "a" ∷ (ascii "b" ∷ []))
      (ascii "a" ∷ (ascii "b" ∷ []))
    ≡ some (
        hash_content toy
          (ascii "rent" ++ entries (λ t. t) (λ t. t) (λ t. t) (ascii "a" ∷ (ascii "b" ∷ []))))
final_hash-entries_example =
    final_hash-entries (λ t. t) (λ t. t) (λ t. t) toy (ascii "rent") (ascii "a" ∷ (ascii "b" ∷ []))
