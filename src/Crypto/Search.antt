-- ===== src/Crypto/Search.antt =====
-- The search of `make_v2_address` in src/utils/crypto.rs for the next index that is not used.
use mathlib.Core.List.{Perm}
use mathlib.Core.List.Perm
use mathlib.Core.Path.{subst}
use kromer.Prelude.{
  ℕ, zero, suc, ◌+◌, ◌-◌, ◌*◌, ◌%◌, ◌<◌, ◌≤◌, ◌≡◌, refl, sym, ap, ◌∙◌, String, codes, as_char,
  code-as_char, push_char, codes-push_char, some, List, [], ◌∷◌, ◌++◌, map, length, Bool, false,
  arith, if◌then◌else◌, Bool-cases, inl, inr,
}
use kromer.Crypto.{
  Run, returned, panicked, out_of_fuel, byte_at, hex_to_base36, is_used, use_index, amino_at,
  build_chain,
}
use kromer.Crypto.Digest.{
  iterate, IsDigest, free, unused_from, length-use_index, free-use_index, first_free,
  unused-use_index, unused_none,
}

-- The run returns, and its value satisfies `P`.
abbrev pub Returns : {A : Type 0} → (A → Type 0) → Run A → Type 0
Returns P (returned a) = P a
Returns P panicked = ⊥
Returns P out_of_fuel = ⊥

pub hex_to_base36-bound : (b : ℕ) → hex_to_base36 b < 256
unfolding hex_to_base36
hex_to_base36-bound b = ground arith

abbrev pub letter : List ℕ → ℕ → ℕ
letter protein i = hex_to_base36 (amino_at i protein)

-- What is still to come spells the bytes at the indices that are left, each once.
abbrev pub Spells : List ℕ → List Bool → String → String → Type 0
Spells protein used chain result =
    (order : List ℕ) × ((codes result ≡ codes chain ++ map (letter protein) order)
      × Perm order (unused_from 0 used))

append_assoc :
    {A : Type 0} (xs : List A) (y : A) (zs : List A) → (xs ++ y ∷ []) ++ zs ≡ xs ++ y ∷ zs
append_assoc [] y zs = refl
append_assoc (x ∷ xs) y zs = ap (λ r. x ∷ r) (append_assoc xs y zs)

append_nil : {A : Type 0} (l : List A) → l ++ [] ≡ l
append_nil [] = refl
append_nil (a ∷ l) = ap (λ r. a ∷ r) (append_nil l)

Spells-push :
    (protein : List ℕ) (used : List Bool) (chain : String) (index : ℕ) (result : String)
    → index < length used
    → is_used index used ≡ false
    → Spells protein
        (use_index index used)
        (push_char chain (as_char (letter protein index)))
        result
    → Spells protein used chain result
Spells-push protein used chain index result h u s = (
  index ∷ s.0,
  (
    s.1.0
        ∙ rw
            (
              codes-push_char chain (as_char (letter protein index)),
              code-as_char (letter protein index) (hex_to_base36-bound (amino_at index protein)),
            )
            (append_assoc (codes chain) (letter protein index) (map (letter protein) s.0)),
    Perm.trans (Perm.cons index s.1.1) (unused-use_index index used h u),
  ),
)

pub Returns-mono :
    {A : Type 0} (P Q : A → Type 0) (r : Run A) → ((a : A) → P a → Q a) → Returns P r → Returns Q r
Returns-mono P Q (returned a) f h = f a h
Returns-mono P Q panicked f h = h
Returns-mono P Q out_of_fuel f h = h

module _ (sha256 : String → String) (protein : List ℕ) where
  -- One round, once its byte is known.
  round :
      (fuel left : ℕ) (used : List Bool) (chain hash : String) (num : ℕ)
      → byte_at (2 * (8 - left)) hash ≡ some num
      → build_chain sha256 (suc fuel) (suc left) protein used chain hash ≡ (
          if is_used (num % 9) used
          then build_chain sha256 fuel (suc left) protein used chain (sha256 hash)
          else build_chain sha256 fuel left protein
              (use_index (num % 9) used)
              (push_char chain (as_char (letter protein (num % 9))))
              hash)
  unfolding build_chain
  round fuel left used chain hash num e = rw (e, build_chain) refl

  -- After an index is taken the rest returns, with any fuel from `m` on.
  abbrev Onward : ℕ → ℕ → List Bool → String → Type 0
  Onward left m used chain =
      (fuel index : ℕ) (t : String)
      → m ≤ fuel
      → index < 9
      → is_used index used ≡ false
      → Returns
          (Spells protein (use_index index used) (push_char chain (as_char (letter protein index))))
          (build_chain sha256 fuel left protein (use_index index used)
            (push_char chain (as_char (letter protein index))) (sha256 t))

  module _ (patience : ℕ) (digest : IsDigest sha256 patience) (left : ℕ) (used : List Bool)
      (chain : String) (nine : length used ≡ 9) where
    taken :
        (fuel index : ℕ) (t : String)
        → index < 9
        → is_used index used ≡ false
        → Returns
            (Spells protein
              (use_index index used)
              (push_char chain (as_char (letter protein index))))
            (build_chain sha256 fuel left protein
              (use_index index used)
              (push_char chain (as_char (letter protein index)))
              (sha256 t))
        → Returns (Spells protein used chain) (
            build_chain sha256 fuel left protein
              (use_index index used)
              (push_char chain (as_char (letter protein index)))
              (sha256 t))
    taken fuel index t small unused h =
        Returns-mono _ _ _
          (λ r s. Spells-push protein used chain index r (omega (arith, nine, small)) unused s) h

    -- The search meets an index that is left before the fuel for it is used up.
    searched :
        (n m fuel r : ℕ) (t : String)
        → Onward left m used chain
        → suc n + m ≤ fuel
        → left < 9
        → is_used r used ≡ false
        → (b : ℕ) × ((byte_at (2 * (8 - left)) (iterate sha256 n (sha256 t)) ≡ some b)
            × (b % 9 ≡ r))
        → Returns
            (Spells protein used chain)
            (build_chain sha256 fuel (suc left) protein used chain (sha256 t))
    searched n m zero r t onward h small unused met = absurd (omega (arith, h))
    searched zero m (suc fuel) r t onward h small unused met =
        let here : is_used (met.0 % 9) used ≡ false =
          subst (λ i. is_used i used ≡ false) (sym met.1.1) unused in
        let below : met.0 % 9 < 9 = omega arith in
        rw (round fuel left used chain (sha256 t) met.0 met.1.0, here)
          (taken fuel (met.0 % 9) t below here
            (onward fuel (met.0 % 9) t (omega (arith, h)) below here))
    searched (suc n) m (suc fuel) r t onward h small unused met =
        let read = digest.reads t (8 - left) (omega (arith, small)) in
        let below : read.0 % 9 < 9 = omega arith in
        elim (Bool-cases (is_used (read.0 % 9) used)) [
          | inl before ↦
              rw (round fuel left used chain (sha256 t) read.0 read.1.0, before)
                (searched n m fuel r (sha256 t) onward (omega (arith, h)) small unused met)
          | inr new ↦
              rw (round fuel left used chain (sha256 t) read.0 read.1.0, new)
                (taken fuel (read.0 % 9) t below new
                  (onward fuel (read.0 % 9) t (omega (arith, h)) below new))
        ]

  module _ (patience : ℕ) (digest : IsDigest sha256 patience) where
    -- The loop returns within `patience` rounds for each character that is left.
    pub build_chain-Returns :
        (left fuel : ℕ) (used : List Bool) (chain : String) (t : String)
        → length used ≡ 9
        → free used ≡ left
        → left ≤ 9
        → left * patience ≤ fuel
        → Returns
            (Spells protein used chain)
            (build_chain sha256 fuel left protein used chain (sha256 t))
    unfolding build_chain
    build_chain-Returns zero fuel used chain t nine e small h =
        ([], (sym (append_nil (codes chain)), rw (unused_none 0 used e) Perm.rfl))
    build_chain-Returns (suc left) fuel used chain t nine e small h =
        let unused = first_free left used e in
        let met =
          digest.meets t (8 - left) unused.0 (omega (arith, small))
            (omega (arith, unused.1.0, nine)) in
        searched patience digest left used chain nine met.0 (left * patience) fuel unused.0 t
          (λ fuel' index t' enough below new.
            build_chain-Returns left fuel' (use_index index used)
              (push_char chain (as_char (letter protein index))) t'
              (length-use_index index used ∙ nine)
              (omega (arith, free-use_index index used (omega (arith, below, nine)) new, e))
              (omega (arith, small)) enough)
          (omega (arith, h, met.1.0)) (omega (arith, small)) unused.1.1 met.1.1
