-- ===== src/Crypto/Code.antt =====
-- src/crypto.rs: the form of a verification code.
use invoices_contracts.Base.{
  ℕ, zero, suc, ◌<◌, ◌≤◌, ◌≡◌, refl, Bool, true, false, not, leb, nat_beq_iff, ap, ap₂, sym, ◌∙◌,
  ◌++◌, map, take, drop, length-take, length-drop, take-append-drop, take_all, drop-drop,
  append-injective, ◌&&◌, ◌||◌, List, [], ◌∷◌, Option, none, some, arith, Text, All, length,
  get_elem?, nat_beq, if◌then◌else◌,
}
use mathlib.Core.Bool.{false≢true}
use invoices_contracts.Crypto.{charset, code_chars, generate_verification_code}

-- The bytes of the character set, without those that are easily misread: 0, O, I and 1.
pub is_clear : ℕ → Bool
is_clear b =
    (leb b'A' b && leb b b'Z' && not (nat_beq b b'I') && not (nat_beq b b'O'))
    || (leb b'2' b && leb b b'9')

abbrev pub IsClear : ℕ → Type 0
IsClear b = is_clear b ≡ true

-- A test that is true at all numbers below a bound is run at each of them.
passes : (ℕ → Bool) → ℕ → Bool
passes test zero = true
passes test (suc bound) = passes test bound && test bound

passes_at : (test : ℕ → Bool) (bound i : ℕ) → i < bound → passes test bound ≡ true → test i ≡ true
unfolding passes
passes_at test zero i below run = absurd (omega arith)
passes_at test (suc bound) i below run = ground (arith, passes_at test bound i)

pub index_of : Text → ℕ → ℕ
index_of [] b = 0
index_of (c ∷ cs) b = if nat_beq c b then 0 else suc (index_of cs b)

-- The test that an entry of the set is there, is clear and is listed at `i` first.
and_parts : (a b : Bool) → (a && b) ≡ true → (a ≡ true) × (b ≡ true)
and_parts true b h = (refl, h)
and_parts false b h = cc

entry_test : ℕ → Option ℕ → Bool
entry_test i none = false
entry_test i (some c) = is_clear c && nat_beq (index_of charset c) i

entries_tested : passes (λ i. entry_test i (get_elem? charset i)) 32 ≡ true
unfolding passes index_of entry_test is_clear
entries_tested = refl

charset_at :
    (i : ℕ)
    → i < 32
    → (c : ℕ) × (get_elem? charset i ≡ some c) × IsClear c × (index_of charset c ≡ i)
unfolding entry_test
charset_at i h =
    go (get_elem? charset i) refl
      (passes_at (λ j. entry_test j (get_elem? charset j)) 32 i h entries_tested)
  where
    go :
        (o : Option ℕ)
        → get_elem? charset i ≡ o
        → entry_test i o ≡ true
        → (c : ℕ) × (get_elem? charset i ≡ some c) × IsClear c × (index_of charset c ≡ i)
    go none e t = absurd (false≢true t)
    go (some c) e t =
        let (clear, listed) = and_parts (is_clear c) (nat_beq (index_of charset c) i) t in
        (c, e, clear, (nat_beq_iff _ _).0 listed)

pub drawn : (ℕ → ℕ) → ℕ → ℕ → List ℕ
drawn draw first zero = []
drawn draw first (suc n) = draw first ∷ drawn draw (suc first) n

-- With all draws below 32, the characters are there and clear, and give the draws back.
code_chars_lem :
    (draw : ℕ → ℕ) (first n : ℕ)
    → ((i : ℕ) → draw i < 32)
    → (cs : Text) × (code_chars draw first n ≡ some cs)
      × (length cs ≡ n)
      × All IsClear cs
      × (map (index_of charset) cs ≡ drawn draw first n)
unfolding code_chars drawn
code_chars_lem draw first zero h = ([], refl, refl, tt, refl)
code_chars_lem draw first (suc n) h =
    let (c, here, clear, listed) = charset_at (draw first) (h first) in
    let (cs, rest, long, clears, listing) = code_chars_lem draw (suc first) n h in
    (c ∷ cs, rw (here, rest, code_chars), ap suc long, (clear, clears), ap₂ ◌∷◌ listed listing)

-- Three groups of four, and nothing lost.
groups : (cs : Text) → length cs ≡ 12 → take 4 cs ++ (take 4 (drop 4 cs) ++ take 4 (drop 8 cs)) ≡ cs
groups cs long = rw (← drop-drop 4 4 cs) (
    rw (take_all 4 (drop 4 (drop 4 cs)) short, take-append-drop 4 (drop 4 cs))
      (take-append-drop 4 cs))
  where
    short : length (drop 4 (drop 4 cs)) ≤ 4
    short = omega (arith, length-drop 4 (drop 4 cs), length-drop 4 cs)

-- With draws below 32 a verification code is three groups of four characters that are not easily
-- misread, joined by dashes, and the positions of its characters in the character set are the
-- draws.
pub code_format :
    (draw : ℕ → ℕ)
    → ((i : ℕ) → draw i < 32)
    → (x y z : Text) × (generate_verification_code draw ≡ some (x ++ (b'-' ∷ (y ++ (b'-' ∷ z)))))
      × (length x ≡ 4)
      × (length y ≡ 4)
      × (length z ≡ 4)
      × All IsClear (x ++ (y ++ z))
      × (map (index_of charset) (x ++ (y ++ z)) ≡ drawn draw 0 12)
unfolding generate_verification_code
code_format draw h =
    let (cs, made, long, clear, listing) = code_chars_lem draw 0 12 h in
    let whole = groups cs long in
    (
      take 4 cs,
      take 4 (drop 4 cs),
      take 4 (drop 8 cs),
      rw (made, generate_verification_code),
      omega (arith, length-take 4 cs),
      omega (arith, length-take 4 (drop 4 cs), length-drop 4 cs),
      omega (arith, length-take 4 (drop 8 cs), length-drop 8 cs),
      rw whole clear,
      rw whole listing,
    )

undashed :
    (x y z x' y' z' : Text)
    → length x ≡ length x'
    → length y ≡ length y'
    → ◌≡◌ {A = Option Text}
        (some (x ++ (b'-' ∷ (y ++ (b'-' ∷ z)))))
        (some (x' ++ (b'-' ∷ (y' ++ (b'-' ∷ z')))))
    → x ++ (y ++ z) ≡ x' ++ (y' ++ z')
undashed x y z x' y' z' lx ly e =
    let (ex, rest) =
      append-injective x x' (b'-' ∷ (y ++ (b'-' ∷ z))) (b'-' ∷ (y' ++ (b'-' ∷ z'))) lx
        (ground arith) in
    let (ey, rest') = append-injective y y' (b'-' ∷ z) (b'-' ∷ z') ly (ground (arith, rest)) in
    let ez : z ≡ z' = ground (arith, rest') in cc (ex, ey, ez)

-- Two codes agree only if they were made from the same draws below 32, so there are 32 ^ 12 codes.
pub code-injective :
    (draw draw' : ℕ → ℕ)
    → ((i : ℕ) → draw i < 32)
    → ((i : ℕ) → draw' i < 32)
    → generate_verification_code draw ≡ generate_verification_code draw'
    → drawn draw 0 12 ≡ drawn draw' 0 12
code-injective draw draw' h h' e =
    let (x, y, z, made, lx, ly, lz, _, listing) = code_format draw h in
    let (x', y', z', made', lx', ly', lz', _, listing') = code_format draw' h' in
    let same = undashed x y z x' y' z' (lx ∙ sym lx') (ly ∙ sym ly') (sym made ∙ e ∙ made') in
    sym listing ∙ ap (map (index_of charset)) same ∙ listing'
