-- ===== src/Crypto/Digest.antt =====
-- What the loops of src/utils/crypto.rs rely on of SHA-256, and the indices they tick off.
use mathlib.Core.List.{Perm}
use mathlib.Core.List.Perm
use kromer.Prelude.{
  ℕ, zero, suc, ◌+◌, ◌*◌, ◌%◌, ◌<◌, ◌≡◌, refl, String, some, List, [], ◌∷◌, length, Bool, true,
  false, arith,
}
use kromer.Crypto.{byte_at, is_used, use_index}

abbrev pub iterate : (String → String) → ℕ → String → String
iterate f zero s = s
iterate f (suc n) s = iterate f n (f s)

-- The two digits at `start` are a byte.
abbrev pub Reads : ℕ → String → Type 0
Reads start hash = (b : ℕ) × ((byte_at start hash ≡ some b) × (b < 256))

-- Within `patience` further digests one has the residue `r` modulo 9 at `start`.
abbrev pub Meets : (String → String) → ℕ → ℕ → ℕ → String → Type 0
Meets sha256 patience start r hash =
    (n : ℕ) × ((n < patience)
      × ((b : ℕ) × ((byte_at start (iterate sha256 n hash) ≡ some b) × (b % 9 ≡ r))))

-- A digest is read as hexadecimal, and the chain of digests of digests is not caught for longer than
-- `patience` without a given residue. The second is an assumption: nothing in the source or in the
-- documentation of the digest promises it, and without it the source's loop might not end.
pub record IsDigest (sha256 : String → String) (patience : ℕ) : Type 0 where
  pub reads : (s : String) (i : ℕ) → i < 9 → Reads (2 * i) (sha256 s)
  pub meets : (s : String) (i r : ℕ) → i < 9 → r < 9 → Meets sha256 patience (2 * i) r (sha256 s)

-- How many indices are left, and which, counting from `k`.
abbrev pub free : List Bool → ℕ
free [] = 0
free (true ∷ used) = free used
free (false ∷ used) = suc (free used)

abbrev pub unused_from : ℕ → List Bool → List ℕ
unused_from k [] = []
unused_from k (true ∷ used) = unused_from (suc k) used
unused_from k (false ∷ used) = k ∷ unused_from (suc k) used

pub length-use_index : (i : ℕ) (used : List Bool) → length (use_index i used) ≡ length used
length-use_index i [] = refl
length-use_index zero (b ∷ used) = refl
length-use_index (suc i) (b ∷ used) = omega (arith, length-use_index i used)

pub free-use_index :
    (i : ℕ) (used : List Bool)
    → i < length used
    → is_used i used ≡ false
    → suc (free (use_index i used)) ≡ free used
free-use_index i [] h e = omega (arith, h)
free-use_index zero (true ∷ used) h e = cc
free-use_index zero (false ∷ used) h e = refl
free-use_index (suc i) (true ∷ used) h e = free-use_index i used (omega (arith, h)) e
free-use_index (suc i) (false ∷ used) h e =
    omega (arith, free-use_index i used (omega (arith, h)) e)

-- The first index that is left.
pub first_free :
    (left : ℕ) (used : List Bool)
    → free used ≡ suc left
    → (r : ℕ) × ((r < length used) × (is_used r used ≡ false))
first_free left [] h = absurd (omega (arith, h))
first_free left (false ∷ used) h = (0, (omega arith, refl))
first_free left (true ∷ used) h =
    let found = first_free left used h in (suc found.0, (omega (arith, found.1.0), found.1.1))

unused_at :
    (k j i : ℕ) (used : List Bool)
    → k + i ≡ j
    → i < length used
    → is_used i used ≡ false
    → Perm (j ∷ unused_from k (use_index i used)) (unused_from k used)
unused_at k j i [] e h u = absurd (omega (arith, h))
unused_at k j zero (true ∷ used) e h u = cc
unused_at k j zero (false ∷ used) e h u = let same : j ≡ k = omega (arith, e) in rw same Perm.rfl
unused_at k j (suc i) (true ∷ used) e h u =
    unused_at (suc k) j i used (omega (arith, e)) (omega (arith, h)) u
unused_at k j (suc i) (false ∷ used) e h u =
    Perm.trans (Perm.swap k j _)
      (Perm.cons k (unused_at (suc k) j i used (omega (arith, e)) (omega (arith, h)) u))

pub unused-use_index :
    (i : ℕ) (used : List Bool)
    → i < length used
    → is_used i used ≡ false
    → Perm (i ∷ unused_from 0 (use_index i used)) (unused_from 0 used)
unused-use_index i used h u = unused_at 0 i i used (omega arith) h u

pub unused_none : (k : ℕ) (used : List Bool) → free used ≡ 0 → unused_from k used ≡ []
unused_none k [] h = refl
unused_none k (true ∷ used) h = unused_none (suc k) used h
unused_none k (false ∷ used) h = absurd (omega (arith, h))
