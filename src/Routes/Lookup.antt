-- ===== src/Routes/Lookup.antt =====
-- The counts of src/routes/krist/lookup/addresses.rs.
use kromer.Prelude.{
  ℕ, suc, ◌+◌, ◌^◌, ◌≤◌, ◌<◌, ◌≡◌, refl, ap, String, str_eq, eq_iff, Option, none, List, [], ◌∷◌,
  map, length, find, select, All, Bool, true, false, arith, if◌then◌else◌,
}
use mathlib.Core.Option
use kromer.Errors.{SqlxError}
use kromer.Database.{Wallet}
use kromer.Database.Externals.{Externals}
use kromer.Database.Statements.{order_by, query}
use kromer.Database.Wallets.{at_address, acquire}
use kromer.Database.Wallets.Listing.{any_address, with_names, more_names, lookup_addresses}
use kromer.Database.Wallets.Selected.{
  length-any_address, select-UniqueAddresses, counted-UniqueAddresses,
}
use kromer.Database.Wallets.Total.{UniqueAddresses}
use kromer.Exec.{krist_from_sqlx, ok, World, trip, answer}
use kromer.Exec.Ensures.{
  After, Answers, Anywhere, answers, Ensures, Ensures-bind, Ensures-map_err, Ensures-pure,
}
use kromer.Models.{AddressJson, address_json}
use kromer.Routes.Addresses.{
  LookupResponse, split_commas, put, by_address, looked, addresses_lookup,
}

abbrev has_key : String → String × AddressJson → Bool
has_key a (k, v) = str_eq k a

abbrev Absent : String → List (String × AddressJson) → Type 0
Absent a m = find (has_key a) m ≡ none

length-put :
    (a : String) (v : AddressJson) (m : List (String × AddressJson))
    → Absent a m
    → length (put a v m) ≡ suc (length m)
length-put a v [] h = refl
length-put a v ((k, u) ∷ m) h = ground (arith, h, length-put a v m)

put-Absent :
    (a b : String) (v : AddressJson) (m : List (String × AddressJson))
    → str_eq a b ≡ false
    → Absent b m
    → Absent b (put a v m)
put-Absent a b v [] e h = rw e refl
put-Absent a b v ((k, u) ∷ m) e h = ground (arith, e, h, put-Absent a b v m)

others :
    (a : String) (ws : List Wallet)
    → find (at_address a) ws ≡ none
    → All (λ (w : Wallet). str_eq a w.address ≡ false) ws
others a [] h = tt
others a (w ∷ ws) h =
    (ground (arith, h, eq_iff a w.address, eq_iff w.address a), others a ws (ground (arith, h)))

still_absent :
    (a : String) (v : AddressJson) (m : List (String × AddressJson)) (ws : List Wallet)
    → All (λ (w : Wallet). str_eq a w.address ≡ false) ws
    → All (λ (w : Wallet). Absent w.address m) ws
    → All (λ (w : Wallet). Absent w.address (put a v m)) ws
still_absent a v m [] d h = tt
still_absent a v m (w ∷ ws) d h =
    (put-Absent a w.address v m d.0 h.0, still_absent a v m ws d.1 h.1)

nothing_there : (ws : List Wallet) → All (λ (w : Wallet). Absent w.address []) ws
nothing_there [] = tt
nothing_there (w ∷ ws) = (refl, nothing_there ws)

-- The two counts add up to the number of addresses that were asked for, and no answer is lost.
abbrev pub Counts : ℕ → LookupResponse → Type 0
Counts asked r = (r.found + r.not_found ≡ asked) × (length r.addresses ≡ r.found)

abbrev Few : ℕ → List Wallet → Type 0
Few asked ws = UniqueAddresses ws × (length ws ≤ asked)

module _ (x : Externals) where
  length-by_address :
      (ws : List Wallet) (m : List (String × AddressJson))
      → UniqueAddresses ws
      → All (λ (w : Wallet). Absent w.address m) ws
      → length (by_address (map (address_json x) ws) m) ≡ length ws + length m
  unfolding by_address address_json
  length-by_address [] m u h = omega arith
  length-by_address (w ∷ ws) m u h =
      let ih =
        length-by_address ws (put w.address (address_json x w) m) u.1
          (still_absent w.address (address_json x w) m ws (others w.address ws u.0) h.1) in
      omega (arith, ih, length-put w.address (address_json x w) m h.0)

  length-models : (ws : List Wallet) → length (map (address_json x) ws) ≡ length ws
  length-models [] = refl
  length-models (w ∷ ws) = ap suc (length-models ws)

  looked-Counts :
      (asked : ℕ) (ws : List Wallet)
      → asked < 2 ^ 64
      → Few asked ws
      → Counts asked (looked x asked ws)
  looked-Counts asked ws small (u, few) =
      let same = length-models ws in
      let kept = length-by_address ws [] u (nothing_there ws) in
      (omega (arith, few, small, same), omega (arith, same, kept))

-- Any two committed wallets have different addresses.
abbrev Distinct : World → Type 0
Distinct w = UniqueAddresses w.committed.wallets

Distinct-trip : Ensures Distinct (λ _. Distinct) Anywhere trip
unfolding trip
Distinct-trip = record { at = λ w h. answered w.faults w h }
  where
    answered :
        (faults : List Bool) (w : World)
        → Distinct w
        → After (λ _. Distinct) Anywhere (answer faults w)
    answered [] w h = h
    answered (true ∷ rest) w h = tt
    answered (false ∷ rest) w h = h

found-Few :
    (parts : List String) (fetch_names : Bool) (w : World)
    → Distinct w
    → After {E = SqlxError}
        (λ ws _. Few (length parts) ws)
        Anywhere
        (
          (let found = select (any_address parts) w.committed.wallets in
              if fetch_names
              then ok (order_by more_names (map (with_names w.committed) found))
              else ok found),
          w,
        )
found-Few parts true w u =
    let found = select (any_address parts) w.committed.wallets in
    let (unique, as_many) =
      counted-UniqueAddresses w.committed found
        (select-UniqueAddresses (any_address parts) w.committed.wallets u) in
    (unique, omega (arith, as_many, length-any_address parts w.committed.wallets u))
found-Few parts false w u = (
  select-UniqueAddresses (any_address parts) w.committed.wallets u,
  length-any_address parts w.committed.wallets u,
)

lookup_addresses-Few :
    (parts : List String) (fetch_names : Bool)
    → Ensures Distinct (λ ws _. Few (length parts) ws) Anywhere (lookup_addresses parts fetch_names)
unfolding lookup_addresses acquire query
lookup_addresses-Few parts fetch_names =
    Ensures-bind _ _ Distinct-trip λ _.
      Ensures-bind _ _ Distinct-trip λ _. record { at = λ w u. found-Few parts fetch_names w u }

addresses_lookup-Ensures :
    (x : Externals) (addresses : String) (fetch_names : Option Bool)
    → length (split_commas addresses) < 2 ^ 64
    → Ensures Distinct
        (λ r _. Counts (length (split_commas addresses)) r)
        Anywhere
        (addresses_lookup x addresses fetch_names)
unfolding addresses_lookup
addresses_lookup-Ensures x addresses fetch_names small =
    Ensures-bind _ _
      (Ensures-map_err krist_from_sqlx _
        (lookup_addresses-Few (split_commas addresses) (Option.get_or fetch_names false)))
      λ ws. Ensures-pure _ _ λ w few. looked-Counts x (length (split_commas addresses)) ws small few

-- Where no two committed wallets have one address, and fewer than 2^64 addresses are asked for, the answer of
-- a lookup counts each of them once, repetitions included, as found or as not found, so the subtraction does not
-- wrap around, and the map of the answer has as many entries as were found.
pub addresses_lookup-Counts :
    (x : Externals) (addresses : String) (fetch_names : Option Bool) (w : World)
    → UniqueAddresses w.committed.wallets
    → length (split_commas addresses) < 2 ^ 64
    → Answers
        (Counts (length (split_commas addresses)))
        (addresses_lookup x addresses fetch_names w)
addresses_lookup-Counts x addresses fetch_names w u small =
    answers (Counts (length (split_commas addresses))) _
      ((addresses_lookup-Ensures x addresses fetch_names small).at w u)
