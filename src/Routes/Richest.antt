-- ===== src/Routes/Richest.antt =====
-- The answer of `wallet_richest` of src/routes/krist/wallet.rs.
use mathlib.Core.Option
use kromer.Prelude.{ℤ, pos, ◌≤ℤ◌, ◌≡◌, refl, List, [], ◌∷◌, map, length, All}
use kromer.Errors.Krist.{krist_of_database}
use kromer.Database.{Wallet, PaginationParams}
use kromer.Database.Externals.{Externals}
use kromer.Database.Statements.{pool, query}
use kromer.Database.Wallets.Listing.{total_count}
use kromer.Database.Wallets.Richest.{AtMost, Descending, anywhere, fetch_richest-Descending}
use kromer.Exec.{from_sqlx, World, trip}
use kromer.Exec.Ensures.{
  Answers, Anywhere, answers, Ensures, Ensures-bind, Ensures-map_err, Ensures-pure,
}
use kromer.Models.{AddressJson, address_json}
use kromer.Routes.Addresses.{AddressListResponse, wallet_richest}

-- No address comes after one with a smaller balance, and the count is the number of addresses.
abbrev pub Falls : List AddressJson → Type 0
Falls [] = Unit
Falls (a ∷ l) = All (λ (b : AddressJson). b.balance ≤ℤ a.balance) l × Falls l

abbrev pub Ordered : AddressListResponse → Type 0
Ordered r = Falls r.addresses × (r.count ≡ length r.addresses)

module _ (x : Externals) where
  map-AtMost :
      (b : ℤ) (ws : List Wallet)
      → AtMost b ws
      → All (λ (a : AddressJson). a.balance ≤ℤ b) (map (address_json x) ws)
  unfolding address_json
  map-AtMost b [] h = tt
  map-AtMost b (w ∷ ws) h = (h.0, map-AtMost b ws h.1)

  map-Falls : (ws : List Wallet) → Descending ws → Falls (map (address_json x) ws)
  unfolding address_json
  map-Falls [] h = tt
  map-Falls (w ∷ ws) h = (map-AtMost w.balance ws h.0, map-Falls ws h.1)

  total_count-Anywhere : Ensures Anywhere (λ _. Anywhere) Anywhere (total_count pool)
  unfolding total_count query
  total_count-Anywhere =
      Ensures-map_err from_sqlx _
        (Ensures-bind _ _ (record { at = λ w h. anywhere (trip w) }) λ _. record { at = λ w h. tt })

  wallet_richest-Ensures :
      (p : PaginationParams) → Ensures Anywhere (λ r _. Ordered r) Anywhere (wallet_richest x p)
  unfolding wallet_richest
  wallet_richest-Ensures p =
      Ensures-bind _ _ (Ensures-map_err krist_of_database _ total_count-Anywhere) λ total.
        Ensures-bind _ _
          (Ensures-map_err krist_of_database _ (
            fetch_richest-Descending pool (Option.get_or p.limit (pos 50))
              (Option.get_or p.offset (pos 0))))
          λ ws. Ensures-pure _ _ λ w h. (map-Falls ws h, refl)

  -- Whatever page is asked for, the list of the richest wallets is answered in the order of falling balances, and its
  -- count is the number of addresses in it.
  pub wallet_richest-Ordered :
      (p : PaginationParams) (w : World) → Answers Ordered (wallet_richest x p w)
  wallet_richest-Ordered p w = answers Ordered _ ((wallet_richest-Ensures p).at w tt)
