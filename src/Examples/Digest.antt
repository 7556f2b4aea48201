-- ===== src/Examples/Digest.antt =====
-- A function that meets what is asked of the digest, and that a test can run: every digest is one of
-- eighteen texts, nine bytes of residues modulo 9, and the digest of one is the next.

use kromer.Prelude.{
  ℕ, zero, suc, ◌+◌, ◌-◌, ◌*◌, ◌%◌, ◌<◌, ◌≡◌, ◌⊎◌, inl, inr, refl, ap, ◌∙◌, String, codes, as_char,
  code-as_char, some, List, [], ◌∷◌, Bool, true, false, ltb, ◌==◌, ◌&&◌, if◌then◌else◌, arith, take,
  drop,
}
use kromer.Crypto.{byte_at, from_hex, hex_digit}
use kromer.Crypto.Digest.{iterate, IsDigest}

-- `n` times the digits of one byte.
repeated : ℕ → ℕ → ℕ → String
repeated zero h l = String.[]
repeated (suc n) h l = String.◌∷◌ (as_char h) (String.◌∷◌ (as_char l) (repeated n h l))

unfoldable digest : ℕ → ℕ → String
unfolding repeated as_char
digest family r = repeated 9 family (b'0' + r)

unfoldable step_of : ℕ → ℕ → String
unfolding digest
step_of a b =
    if a == b'9' && ltb (b - b'0') 9
    then digest b'9' ((b - b'0' + 1) % 9)
    else if a == b'0' && ltb (b - b'0') 9
    then digest b'0' ((b - b'0' + 1) % 9)
    else if a == b'b'
    then digest b'9' 0
    else digest b'0' 0

unfoldable first_two : List ℕ → String
unfolding step_of
first_two (a ∷ b ∷ _) = step_of a b
first_two _ = digest b'0' 0

unfoldable pub demo_sha256 : String → String
unfolding first_two digest
demo_sha256 s = first_two (codes s)

-- The texts that are digests.
abbrev IsForm : String → Type 0
IsForm s =
    (family : ℕ) × ((r : ℕ) × (((family ≡ b'0') ⊎ (family ≡ b'9'))
        × ((r < 9) × (s ≡ digest family r))))

two_suc : (i : ℕ) → 2 * suc i ≡ suc (suc (2 * i))
two_suc i = omega arith

take-drop-repeated :
    (n i h l : ℕ)
    → i < n
    → h < 256
    → l < 256
    → take 2 (drop (2 * i) (codes (repeated n h l))) ≡ h ∷ l ∷ []
unfolding repeated
take-drop-repeated zero i h l e a b = absurd (omega (arith, e))
take-drop-repeated (suc n) zero h l e a b = rw (code-as_char h a, code-as_char l b) refl
take-drop-repeated (suc n) (suc i) h l e a b =
    rw (two_suc i) (take-drop-repeated n i h l (omega (arith, e)) a b)

hex-digits :
    (family r : ℕ)
    → (family ≡ b'0') ⊎ (family ≡ b'9')
    → r < 9
    → from_hex (family ∷ (b'0' + r) ∷ []) ≡ some ((family - b'0') * 16 + r)
unfolding from_hex hex_digit
hex-digits family r (inl e) h = rw e (ground (arith, h))
hex-digits family r (inr e) h = rw e (ground (arith, h))

small : (family : ℕ) → (family ≡ b'0') ⊎ (family ≡ b'9') → family < 256
small family (inl e) = omega (arith, e)
small family (inr e) = omega (arith, e)

byte_at-digest :
    (family r i : ℕ)
    → (family ≡ b'0') ⊎ (family ≡ b'9')
    → r < 9
    → i < 9
    → byte_at (2 * i) (digest family r) ≡ some ((family - b'0') * 16 + r)
unfolding byte_at digest
byte_at-digest family r i f h k =
    ap from_hex (take-drop-repeated 9 i family (b'0' + r) k (small family f) (omega (arith, h)))
    ∙ hex-digits family r f h

residue :
    (family r : ℕ) → (family ≡ b'0') ⊎ (family ≡ b'9') → r < 9 → ((family - b'0') * 16 + r) % 9 ≡ r
residue family r (inl e) h = rw e (omega (arith, h))
residue family r (inr e) h = rw e (omega (arith, h))

step_of-digest :
    (family r : ℕ)
    → (family ≡ b'0') ⊎ (family ≡ b'9')
    → r < 9
    → step_of family (b'0' + r) ≡ digest family ((r + 1) % 9)
unfolding step_of
step_of-digest family r f h =
    let back : b'0' + r - b'0' ≡ r = omega arith in
    let below : ltb r 9 ≡ true = ground (arith, h) in
    elim f [ inl e ↦ rw (e, back, below) refl | inr e ↦ rw (e, back, below) refl ]

demo_sha256-digest :
    (family r : ℕ)
    → (family ≡ b'0') ⊎ (family ≡ b'9')
    → r < 9
    → demo_sha256 (digest family r) ≡ digest family ((r + 1) % 9)
unfolding demo_sha256 first_two digest repeated
demo_sha256-digest family r f h =
    rw (code-as_char family (small family f), code-as_char (b'0' + r) (omega (arith, h)))
      (step_of-digest family r f h)

first_two-IsForm : (l : List ℕ) → IsForm (first_two l)
unfolding first_two step_of
first_two-IsForm [] = (b'0', (0, (inl refl, (omega arith, refl))))
first_two-IsForm (a ∷ []) = (b'0', (0, (inl refl, (omega arith, refl))))
first_two-IsForm (a ∷ b ∷ l) =
    chosen (a == b'9' && ltb (b - b'0') 9) (a == b'0' && ltb (b - b'0') 9) (a == b'b')
      ((b - b'0' + 1) % 9) (omega arith)
  where
    chosen :
        (p q s : Bool) (r : ℕ)
        → r < 9
        → IsForm (
            if p
            then digest b'9' r
            else if q
            then digest b'0' r
            else if s
            then digest b'9' 0
            else digest b'0' 0)
    chosen true q s r h = (b'9', (r, (inr refl, (h, refl))))
    chosen false true s r h = (b'0', (r, (inl refl, (h, refl))))
    chosen false false true r h = (b'9', (0, (inr refl, (omega arith, refl))))
    chosen false false false r h = (b'0', (0, (inl refl, (omega arith, refl))))

demo_sha256-IsForm : (s : String) → IsForm (demo_sha256 s)
unfolding demo_sha256
demo_sha256-IsForm s = first_two-IsForm (codes s)

iterate-digest :
    (n family r : ℕ)
    → (family ≡ b'0') ⊎ (family ≡ b'9')
    → r < 9
    → iterate demo_sha256 n (digest family r) ≡ digest family ((r + n) % 9)
iterate-digest zero family r f h = let e : (r + 0) % 9 ≡ r = omega (arith, h) in rw e refl
iterate-digest (suc n) family r f h =
    let e : ((r + 1) % 9 + n) % 9 ≡ (r + suc n) % 9 = omega arith in
    ap (iterate demo_sha256 n) (demo_sha256-digest family r f h)
    ∙ iterate-digest n family ((r + 1) % 9) f (omega arith)
    ∙ ap (digest family) e

byte_bound :
    (family r : ℕ) → (family ≡ b'0') ⊎ (family ≡ b'9') → r < 9 → (family - b'0') * 16 + r < 256
byte_bound family r (inl e) h = omega (arith, e, h)
byte_bound family r (inr e) h = omega (arith, e, h)

pub demo_sha256-IsDigest : IsDigest demo_sha256 9
demo_sha256-IsDigest = record {
  reads = λ s i h.
      let (family, (r, (f, (k, e)))) = demo_sha256-IsForm s in
      (
        (family - b'0') * 16 + r,
        (ap (byte_at (2 * i)) e ∙ byte_at-digest family r i f k h, byte_bound family r f k),
      );
  meets = λ s i target h g.
      let (family, (r, (f, (k, e)))) = demo_sha256-IsForm s in
      let n : ℕ = (target + 9 - r) % 9 in
      let there : (r + n) % 9 ≡ target = omega (arith, k, g) in
      (
        n,
        (
          omega arith,
          (
            (family - b'0') * 16 + target,
            (
              ap (λ t. byte_at (2 * i) (iterate demo_sha256 n t)) e
                  ∙ ap (byte_at (2 * i)) (iterate-digest n family r f k ∙ ap (digest family) there)
                  ∙ byte_at-digest family target i f g h,
              residue family target f g,
            ),
          ),
        ),
      );
}
