-- ===== src/Crypto/Address.antt =====
-- The address that `make_v2_address` of src/utils/crypto.rs derives, put together of its two loops.
use mathlib.Core.List.{Perm}
use mathlib.Core.Path.{subst}
use kromer.Prelude.{
  ℕ, zero, suc, ◌*◌, ◌≤◌, ◌≡◌, refl, sym, String, codes, Option, none, some, List, [], ◌∷◌, ◌++◌,
  map, arith,
}
use kromer.Crypto.{
  Run, returned, panicked, out_of_fuel, byte_at, none_used, double_sha256, fill_protein,
  build_chain, build, run_v2_address,
}
use kromer.Crypto.Digest.{IsDigest}
use kromer.Crypto.Search.{Returns, Returns-mono, letter, Spells, build_chain-Returns}

-- The `n` first bytes of the `n` hashes that follow `hash`, each the double digest of the one before.
abbrev pub FirstBytes : (String → String) → ℕ → List ℕ → String → Type 0
FirstBytes sha256 zero protein hash = protein ≡ []
FirstBytes sha256 (suc n) [] hash = ⊥
FirstBytes sha256 (suc n) (amino ∷ protein) hash =
    (byte_at 0 hash ≡ some amino) × FirstBytes sha256 n protein (double_sha256 sha256 hash)

module _ (sha256 : String → String) where
  -- An address is the prefix followed by nine characters: those of the first bytes of the nine double
  -- digests that follow the key, each of the nine once, in some order.
  abbrev pub IsAddress : String → String → String → Type 0
  IsAddress key address_prefix a =
      (protein : List ℕ) × (FirstBytes sha256 9 protein (double_sha256 sha256 key)
        × ((order : List ℕ) × ((codes a ≡ codes address_prefix ++ map (letter protein) order)
              × Perm order (0 ∷ 1 ∷ 2 ∷ 3 ∷ 4 ∷ 5 ∷ 6 ∷ 7 ∷ 8 ∷ []))))

module _ (sha256 : String → String) (patience : ℕ) (digest : IsDigest sha256 patience) where
  abbrev Filled : ℕ → String → Option (List ℕ × String) → Type 0
  Filled n hash none = ⊥
  Filled n hash (some (protein, last)) =
      FirstBytes sha256 n protein hash × ((t : String) × (last ≡ sha256 t))

  filled :
      (n : ℕ) (hash : String) (o : Option (List ℕ × String)) (amino : ℕ)
      → byte_at 0 hash ≡ some amino
      → Filled n (double_sha256 sha256 hash) o
      → Filled
          (suc n)
          hash
          (elim o [ none ↦ none | some (protein, last) ↦ some (amino ∷ protein, last) ])
  filled n hash none amino e h = elim h [ ]
  filled n hash (some (protein, last)) amino e h = ((e, h.0), h.1)

  fill_protein-Filled :
      (n : ℕ) (t : String) → Filled n (sha256 t) (fill_protein sha256 n (sha256 t))
  unfolding fill_protein double_sha256
  fill_protein-Filled zero t = (refl, (t, refl))
  fill_protein-Filled (suc n) t =
      let read = digest.reads t 0 (omega arith) in
      let rest = fill_protein-Filled n (sha256 (sha256 t)) in
      subst
        (λ o. Filled (suc n) (sha256 t) (elim o [
          | none ↦ none
          | some amino ↦ elim (fill_protein sha256 n (double_sha256 sha256 (sha256 t))) [
            | none ↦ none
            | some (protein, last) ↦ some (amino ∷ protein, last)
          ]
        ]))
        (sym read.1.0)
        (filled n (sha256 t) (fill_protein sha256 n (double_sha256 sha256 (sha256 t))) read.0
          read.1.0 rest)

  build-IsAddress :
      (fuel : ℕ) (key address_prefix : String) (o : Option (List ℕ × String))
      → 9 * patience ≤ fuel
      → Filled 9 (double_sha256 sha256 key) o
      → Returns (IsAddress sha256 key address_prefix) (build sha256 fuel address_prefix o)
  unfolding build
  build-IsAddress fuel key address_prefix none h f = elim f [ ]
  build-IsAddress fuel key address_prefix (some (protein, last)) h f =
      subst
        (λ hash.
          Returns (IsAddress sha256 key address_prefix)
            (build_chain sha256 fuel 9 protein none_used address_prefix hash))
        (sym f.1.1)
        (Returns-mono (Spells protein none_used address_prefix)
          (IsAddress sha256 key address_prefix)
          (build_chain sha256 fuel 9 protein none_used address_prefix (sha256 f.1.0))
          (λ a s. (protein, (f.0, s)))
          (build_chain-Returns sha256 protein patience digest 9 fuel none_used address_prefix f.1.0
            refl refl (omega arith) h))

  -- The derivation of an address returns, with fuel for nine times the digest's patience, and so the
  -- source's loop ends; the result is the prefix followed by the characters of the first bytes of the
  -- nine double digests that follow the key, each of the nine once, in some order.
  pub run_v2_address-Returns :
      (fuel : ℕ) (key address_prefix : String)
      → 9 * patience ≤ fuel
      → Returns
          (IsAddress sha256 key address_prefix)
          (run_v2_address sha256 fuel key address_prefix)
  unfolding run_v2_address double_sha256
  run_v2_address-Returns fuel key address_prefix h =
      build-IsAddress fuel key address_prefix (fill_protein sha256 9 (double_sha256 sha256 key)) h
        (fill_protein-Filled 9 (sha256 key))

abbrev pub value : {A : Type 0} (P : A → Type 0) (r : Run A) → Returns P r → A
value P (returned a) h = a
value P panicked h = elim h [ ]
value P out_of_fuel h = elim h [ ]
