-- ===== src/Examples/Addresses.antt =====
-- The theorems of addresses at the small server and its digest.
use kromer.Prelude.{ℕ, ◌+ℤ◌, ◌≡◌, refl, ◌↔◌, some, List, [], ◌∷◌, pos, none, codes, true, arith}
use kromer.Examples.{simple, world}
use kromer.Exec.Ensures.{Answers}
use kromer.Database.Paginated.Walk.{walk, walk-all}
use kromer.Routes.Addresses.{split_commas, addresses_lookup, wallet_richest}
use kromer.Routes.Richest.{Ordered, wallet_richest-Ordered}
use kromer.Routes.Lookup.{Counts, addresses_lookup-Counts}
use kromer.Routes.Misc.{supply_of, get_kromer_supply}
use kromer.Routes.Recipients.{Parts, is_name-Parts}
use kromer.Routes.Transactions.{is_name}
use kromer.Routes.Serving.{Request, serve_all}
use kromer.Routes.Supply.{reserve_of, get_kromer_supply-serve_all}
use kromer.Validation.{is_alnum, is_valid_kromer_address}
use kromer.Validation.Texts.{Consists, is_valid_kromer_address-Consists}

is_name-Parts_example : Parts "me@shop.kro"
unfolding is_name
is_name-Parts_example = is_name-Parts "me@shop.kro" refl

is_valid_kromer_address-Consists_example :
    (is_valid_kromer_address "k001000010" ≡ true)
    ↔ ((l : List ℕ) × ((codes "k001000010" ≡ b'k' ∷ l) × Consists 9 0 (λ c. is_alnum c) l))
is_valid_kromer_address-Consists_example = is_valid_kromer_address-Consists "k001000010"

addresses_lookup-Counts_example :
    Answers (Counts 2) (addresses_lookup simple "k001000010,kaaaaaaaaa" (some true) world)
unfolding split_commas
addresses_lookup-Counts_example =
    addresses_lookup-Counts simple "k001000010,kaaaaaaaaa" (some true) world (refl, (refl, tt))
      (omega arith)

get_kromer_supply-serve_all_example :
    Answers
      (λ v.
        v
          +ℤ reserve_of
              (serve_all simple (Request.register "cafe" (some "aaaaaaaaa") ∷ []) world).committed
        ≡ supply_of world.committed +ℤ reserve_of world.committed)
      (get_kromer_supply (serve_all simple (Request.register "cafe" (some "aaaaaaaaa") ∷ []) world))
get_kromer_supply-serve_all_example =
    get_kromer_supply-serve_all simple (Request.register "cafe" (some "aaaaaaaaa") ∷ []) world
      (refl, (refl, tt))

walk-all_example : walk {A = ℕ} (1 ∷ 2 ∷ 3 ∷ []) 2 3 (pos 0) ≡ 1 ∷ 2 ∷ 3 ∷ []
walk-all_example = walk-all (1 ∷ 2 ∷ 3 ∷ []) 2 (omega arith) (omega arith) 3 (omega arith)

wallet_richest-Ordered_example : Answers Ordered (
    wallet_richest simple
      (record { exclude_mined = none; limit = some (pos 1); offset = none })
      world)
wallet_richest-Ordered_example =
    wallet_richest-Ordered simple
      (record { exclude_mined = none; limit = some (pos 1); offset = none }) world
