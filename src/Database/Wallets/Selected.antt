-- ===== src/Database/Wallets/Selected.antt =====
-- The rows that `lookup_addresses` of src/database/wallet.rs selects and orders.
use kromer.Prelude.{
  suc, ◌+◌, ◌≤◌, ◌≡◌, refl, ap, ◌∙◌, String, str_eq, eq_iff, none, List, [], ◌∷◌, map, length, find,
  select, Bool, false, ◌||◌, arith, Bool-cases, inl, inr,
}
use kromer.Database.{Wallet, Tables}
use kromer.Database.Statements.{order_by, place}
use kromer.Database.Wallets.{at_address}
use kromer.Database.Wallets.Listing.{any_address, with_names, more_names}
use kromer.Database.Wallets.Total.{UniqueAddresses}

-- At most one row for each address that is asked for.
select-at_address-none :
    (a : String) (ws : List Wallet) → find (at_address a) ws ≡ none → select (at_address a) ws ≡ []
select-at_address-none a [] h = refl
select-at_address-none a (w ∷ ws) h = ground (arith, select-at_address-none a ws)

length-at_address :
    (a : String) (ws : List Wallet) → UniqueAddresses ws → length (select (at_address a) ws) ≤ 1
length-at_address a [] u = omega arith
length-at_address a (w ∷ ws) u = elim (Bool-cases (str_eq w.address a)) [
  | inl here ↦
      let same : w.address ≡ a = (eq_iff w.address a).0 here in
      rw (here, select-at_address-none a ws (rw same at u.0)) (omega arith)
  | inr there ↦ rw there (length-at_address a ws u.1)
]

length-select-either :
    (p q : Wallet → Bool) (ws : List Wallet)
    → length (select (λ w. p w || q w) ws) ≤ length (select p ws) + length (select q ws)
length-select-either p q [] = omega arith
length-select-either p q (w ∷ ws) = ground (arith, length-select-either p q ws)

select-nothing : (ws : List Wallet) → select (any_address []) ws ≡ []
select-nothing [] = refl
select-nothing (w ∷ ws) = select-nothing ws

pub length-any_address :
    (as' : List String) (ws : List Wallet)
    → UniqueAddresses ws
    → length (select (any_address as') ws) ≤ length as'
length-any_address [] ws u = rw (select-nothing ws) (omega arith)
length-any_address (a ∷ as') ws u =
    let one = length-at_address a ws u in
    let others = length-any_address as' ws u in
    omega (arith, length-select-either (at_address a) (any_address as') ws, one, others)

-- Uniqueness of addresses, through the steps of the query.
find-select :
    (a : String) (p : Wallet → Bool) (ws : List Wallet)
    → find (at_address a) ws ≡ none
    → find (at_address a) (select p ws) ≡ none
find-select a p [] h = refl
find-select a p (w ∷ ws) h = ground (arith, find-select a p ws)

pub select-UniqueAddresses :
    (p : Wallet → Bool) (ws : List Wallet) → UniqueAddresses ws → UniqueAddresses (select p ws)
select-UniqueAddresses p [] u = tt
select-UniqueAddresses p (w ∷ ws) u = elim (Bool-cases (p w)) [
  | inl kept ↦ rw kept (find-select w.address p ws u.0, select-UniqueAddresses p ws u.1)
  | inr gone ↦ rw gone (select-UniqueAddresses p ws u.1)
]

module _ (before : Wallet → Wallet → Bool) where
  find-place :
      (a : String) (x : Wallet) (ws : List Wallet)
      → str_eq x.address a ≡ false
      → find (at_address a) ws ≡ none
      → find (at_address a) (place before x ws) ≡ none
  unfolding place
  find-place a x [] e h = rw e refl
  find-place a x (w ∷ ws) e h = ground (arith, e, h, find-place a x ws e)

  place-UniqueAddresses :
      (x : Wallet) (ws : List Wallet)
      → find (at_address x.address) ws ≡ none
      → UniqueAddresses ws
      → UniqueAddresses (place before x ws)
  unfolding place
  place-UniqueAddresses x [] h u = (refl, tt)
  place-UniqueAddresses x (w ∷ ws) h u = elim (Bool-cases (before x w)) [
    | inl first ↦ rw first (h, u)
    | inr later ↦
        let differ : str_eq x.address w.address ≡ false =
          ground (arith, h, eq_iff x.address w.address, eq_iff w.address x.address) in
        let rest : find (at_address x.address) ws ≡ none = ground (arith, h) in
        rw later (find-place w.address x ws differ u.0, place-UniqueAddresses x ws rest u.1)
  ]

  length-place : (x : Wallet) (ws : List Wallet) → length (place before x ws) ≡ suc (length ws)
  unfolding place
  length-place x [] = refl
  length-place x (w ∷ ws) = ground (arith, length-place x ws)

  find-order_by :
      (a : String) (ws : List Wallet)
      → find (at_address a) ws ≡ none
      → find (at_address a) (order_by before ws) ≡ none
  unfolding order_by
  find-order_by a [] h = refl
  find-order_by a (w ∷ ws) h =
      let differ : str_eq w.address a ≡ false = ground (arith, h) in
      let rest : find (at_address a) ws ≡ none = ground (arith, h) in
      find-place a w (order_by before ws) differ (find-order_by a ws rest)

  order_by-UniqueAddresses :
      (ws : List Wallet) → UniqueAddresses ws → UniqueAddresses (order_by before ws)
  unfolding order_by
  order_by-UniqueAddresses [] u = tt
  order_by-UniqueAddresses (w ∷ ws) u =
      place-UniqueAddresses w (order_by before ws) (find-order_by w.address ws u.0)
        (order_by-UniqueAddresses ws u.1)

  length-order_by : (ws : List Wallet) → length (order_by before ws) ≡ length ws
  unfolding order_by
  length-order_by [] = refl
  length-order_by (w ∷ ws) = length-place w (order_by before ws) ∙ ap suc (length-order_by ws)

module _ (t : Tables) where
  find-with_names :
      (a : String) (ws : List Wallet)
      → find (at_address a) ws ≡ none
      → find (at_address a) (map (with_names t) ws) ≡ none
  find-with_names a [] h = refl
  find-with_names a (w ∷ ws) h = ground (arith, h, find-with_names a ws)

  with_names-UniqueAddresses :
      (ws : List Wallet) → UniqueAddresses ws → UniqueAddresses (map (with_names t) ws)
  with_names-UniqueAddresses [] u = tt
  with_names-UniqueAddresses (w ∷ ws) u =
      (find-with_names w.address ws u.0, with_names-UniqueAddresses ws u.1)

  length-with_names : (ws : List Wallet) → length (map (with_names t) ws) ≡ length ws
  length-with_names [] = refl
  length-with_names (w ∷ ws) = ap suc (length-with_names ws)

  -- The rows with their names, in order: as many, and with as many addresses.
  pub counted-UniqueAddresses :
      (ws : List Wallet)
      → UniqueAddresses ws
      → UniqueAddresses (order_by more_names (map (with_names t) ws))
        × (length (order_by more_names (map (with_names t) ws)) ≡ length ws)
  counted-UniqueAddresses ws u = (
    order_by-UniqueAddresses more_names (map (with_names t) ws) (with_names-UniqueAddresses ws u),
    length-order_by more_names (map (with_names t) ws) ∙ length-with_names ws,
  )
