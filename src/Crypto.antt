-- ===== src/Crypto.antt =====
-- src/utils/crypto.rs: the address that belongs to a private key. `Digest` says what the loop relies on.
-- The digest itself, `sha256`, is a parameter: a text of lower-case hexadecimal digits, so that its
-- bytes are its code points. The search of the second loop runs on fuel.
pub mod Digest
pub mod Search
pub mod Address
use kromer.Prelude.{
  ℕ, zero, suc, ◌+◌, ◌-◌, ◌*◌, ◌/◌, ◌%◌, String, codes, as_char, push_char, Option, none, some,
  List, [], ◌∷◌, take, drop, Bool, true, false, leb, ltb, ◌==◌, ◌&&◌, if◌then◌else◌,
}

-- What a run returns: a value, a panic, or no answer within the fuel.
pub data Run (A : Type 0) : Type 0 where
  returned : A → Run A
  panicked : Run A
  out_of_fuel : Run A

-- `char::to_digit(16)`
unfoldable pub hex_digit : ℕ → Option ℕ
hex_digit c =
    if leb b'0' c && leb c b'9'
    then some (c - b'0')
    else if leb b'a' c && leb c b'f'
    then some (c - b'a' + 10)
    else if leb b'A' c && leb c b'F'
    then some (c - b'A' + 10)
    else none

abbrev pub two_digits : Option ℕ → Option ℕ → Option ℕ
two_digits (some a) (some b) = some (a * 16 + b)
two_digits _ _ = none

-- `u8::from_str_radix(s, 16)` of a text of two: a sign may stand before the digits.
unfoldable pub from_hex : List ℕ → Option ℕ
unfolding hex_digit
from_hex (a ∷ b ∷ []) = if a == b'+' then hex_digit b else two_digits (hex_digit a) (hex_digit b)
from_hex _ = none

-- `u8::from_str_radix(&hash[start..start + 2], 16)`; `none` is a panic.
unfoldable pub byte_at : ℕ → String → Option ℕ
unfolding from_hex
byte_at start hash = from_hex (take 2 (drop start (codes hash)))

-- `hex_to_base36`, before `as char`; no byte reaches `unreachable!`.
unfoldable pub hex_to_base36 : ℕ → ℕ
hex_to_base36 byte =
    let q = byte / 7 in if leb q 9 then q + b'0' else if leb q 35 then q + b'a' - 10 else b'e'

-- `used[index]`
abbrev pub is_used : ℕ → List Bool → Bool
is_used n [] = false
is_used zero (b ∷ used) = b
is_used (suc n) (b ∷ used) = is_used n used

-- `used[index] = true`
abbrev pub use_index : ℕ → List Bool → List Bool
use_index n [] = []
use_index zero (b ∷ used) = true ∷ used
use_index (suc n) (b ∷ used) = b ∷ use_index n used

-- `protein[index]`
abbrev pub amino_at : ℕ → List ℕ → ℕ
amino_at n [] = 0
amino_at zero (a ∷ protein) = a
amino_at (suc n) (a ∷ protein) = amino_at n protein

abbrev pub none_used : List Bool
none_used = false ∷ false ∷ false ∷ false ∷ false ∷ false ∷ false ∷ false ∷ false ∷ []

module _ (sha256 : String → String) where
  unfoldable pub double_sha256 : String → String
  double_sha256 data' = sha256 (sha256 data')

  -- `for amino in &mut protein`: the bytes in order, and the hash after them.
  unfoldable pub fill_protein : ℕ → String → Option (List ℕ × String)
  unfolding byte_at double_sha256
  fill_protein zero hash = some ([], hash)
  fill_protein (suc n) hash =
      let rest = fill_protein n (double_sha256 hash) in
      elim (byte_at 0 hash) [
        | none ↦ none
        | some amino ↦ elim rest [
          | none ↦ none
          | some (protein, last) ↦ some (amino ∷ protein, last)
        ]
      ]

  -- The body and the rest of `while i < 9`, `left` rounds with `i = 9 - left` before the end.
  unfoldable pub build_chain : ℕ → ℕ → List ℕ → List Bool → String → String → Run String
  unfolding byte_at hex_to_base36
  build_chain fuel zero protein used chain hash = returned chain
  build_chain zero (suc left) protein used chain hash = out_of_fuel
  build_chain (suc fuel) (suc left) protein used chain hash = elim (byte_at (2 * (8 - left)) hash) [
    | none ↦ panicked
    | some num ↦
        let index = num % 9 in
        let again = build_chain fuel (suc left) protein used chain (sha256 hash) in
        let onward =
          build_chain fuel left protein (use_index index used)
            (push_char chain (as_char (hex_to_base36 (amino_at index protein)))) hash in
        if is_used index used then again else onward
  ]

  abbrev pub build : ℕ → String → Option (List ℕ × String) → Run String
  unfolding build_chain
  build fuel address_prefix none = panicked
  build fuel address_prefix (some (protein, hash)) =
      build_chain fuel 9 protein none_used address_prefix hash

  unfoldable pub run_v2_address : ℕ → String → String → Run String
  unfolding fill_protein double_sha256 build_chain
  run_v2_address fuel key address_prefix =
      build fuel address_prefix (fill_protein 9 (double_sha256 key))
