-- ===== src/Routes/Addresses.antt =====
-- The handlers of src/routes/krist/wallet.rs and src/routes/krist/lookup/addresses.rs.
use mathlib.Core.Option
use Prim.Native.Char.{code}
use kromer.Prelude.{
  ℕ, ◌+◌, ◌-◌, ◌^◌, ◌%◌, pos, String, str_eq, Option, some, List, [], ◌∷◌, map, length, Bool, true,
  false, ◌==◌, if◌then◌else◌,
}
use kromer.Errors.Krist.{KristError, address, AddressError}
use kromer.Database.{Wallet, PaginationParams}
use kromer.Database.Externals.{Externals}
use kromer.Database.Statements.{pool, tx}
use kromer.Database.Wallets.{fetch_by_address}
use kromer.Database.Wallets.Listing as Wallets
use kromer.Database.Wallets.Listing.{
  total_count, fetch_all, fetch_richest, total_transactions, transactions, names_owned,
  lookup_addresses, fetch_by_address_names,
}
use kromer.Exec.{Exec, ◌>>=◌, ◌>>◌, pure, ok_or, begin, commit, scoped, to_krist, sqlx_to_krist}
use kromer.Models.{AddressJson, address_json, name_json}
use kromer.Routes.Names.{NameListResponse}
use kromer.Routes.Transactions.{TransactionListResponse, listing}

-- `AddressListResponse` of src/models/krist/addresses.rs.
pub record AddressListResponse : Type 0 where
  pub count : ℕ
  pub total : ℕ
  pub addresses : List AddressJson

-- `LookupResponse` of src/models/krist/webserver/lookup/addresses.rs; the map is a list by key.
pub record LookupResponse : Type 0 where
  pub found : ℕ
  pub not_found : ℕ
  pub addresses : List (String × AddressJson)

-- `split(',')`
abbrev pub begin_with : Prim.Native.Char.Char → List String → List String
begin_with c [] = String.◌∷◌ c String.[] ∷ []
begin_with c (part ∷ parts) = String.◌∷◌ c part ∷ parts

unfoldable pub split_commas : String → List String
split_commas String.[] = "" ∷ []
split_commas (String.◌∷◌ c s) =
    let rest = split_commas s in if code c == b',' then "" ∷ rest else begin_with c rest

-- `HashMap::insert`: the value at a key that is there is replaced.
abbrev pub put : {V : Type 0} → String → V → List (String × V) → List (String × V)
put k v [] = (k, v) ∷ []
put k v ((j, u) ∷ m) = let rest = put k v m in if str_eq j k then (j, v) ∷ m else (j, u) ∷ rest

-- `collect` into a `HashMap`
unfoldable pub by_address :
    List AddressJson → List (String × AddressJson) → List (String × AddressJson)
by_address [] m = m
by_address (model ∷ models) m = by_address models (put model.address model m)

-- The difference of two `usize`, which wraps around where it is negative.
abbrev pub usize_sub : ℕ → ℕ → ℕ
usize_sub a b = (a + 2 ^ 64 - b) % 2 ^ 64

module _ (x : Externals) where
  abbrev pub address_list : List Wallet → ℕ → AddressListResponse
  address_list wallets total =
      let l = map (address_json x) wallets in
      record { count = length l; total = total; addresses = l }

  unfoldable pub wallet_list : PaginationParams → Exec KristError AddressListResponse
  wallet_list pagination = scoped do
    let limit = Option.get_or pagination.limit (pos 50)
    let offset = Option.get_or pagination.offset (pos 0)
    sqlx_to_krist begin
    total ← to_krist (total_count tx)
    wallets ← to_krist (fetch_all tx limit offset)
    sqlx_to_krist commit
    pure (address_list wallets total)

  abbrev pub fetch_with_names : Option Bool → String → Exec KristError (Option Wallet)
  fetch_with_names (some true) a = to_krist (fetch_by_address_names pool a)
  fetch_with_names _ a = to_krist (fetch_by_address pool a)

  unfoldable pub wallet_get : String → Option Bool → Exec KristError AddressJson
  wallet_get a fetch_names = do
    wallet ← fetch_with_names fetch_names a
    ok_or (Option.map (address_json x) wallet) (address (AddressError.not_found a))

  unfoldable pub wallet_richest : PaginationParams → Exec KristError AddressListResponse
  wallet_richest pagination = do
    let limit = Option.get_or pagination.limit (pos 50)
    let offset = Option.get_or pagination.offset (pos 0)
    total ← to_krist (total_count pool)
    ordered_wallets ← to_krist (fetch_richest pool limit offset)
    pure (address_list ordered_wallets total)

  unfoldable pub wallet_get_transactions :
      String → PaginationParams → Exec KristError TransactionListResponse
  wallet_get_transactions a params = scoped do
    sqlx_to_krist begin
    found ← to_krist (fetch_by_address tx a)
    wallet ← ok_or found (address (AddressError.not_found a))
    total ← sqlx_to_krist (total_transactions wallet tx (Option.get_or params.exclude_mined false))
    rows ← sqlx_to_krist (transactions wallet tx params)
    sqlx_to_krist commit
    pure (listing x rows total)

  unfoldable pub wallet_get_names : String → PaginationParams → Exec KristError NameListResponse
  wallet_get_names a query = scoped do
    sqlx_to_krist begin
    found ← to_krist (fetch_by_address tx a)
    wallet ← ok_or found (address (AddressError.not_found a))
    owned ← sqlx_to_krist (names_owned wallet tx)
    rows ← sqlx_to_krist (Wallets.names wallet tx query)
    sqlx_to_krist commit
    let l = map (name_json x) rows
    pure (record { count = length l; total = owned; names = l })

  abbrev pub looked : ℕ → List Wallet → LookupResponse
  looked address_count looked_up =
      let models = map (address_json x) looked_up in
      let len = length models in
      record {
        found = len;
        not_found = usize_sub address_count len;
        addresses = by_address models [];
      }

  unfoldable pub addresses_lookup : String → Option Bool → Exec KristError LookupResponse
  addresses_lookup addresses fetch_names = do
    let parts = split_commas addresses
    let address_count = length parts
    looked_up ← sqlx_to_krist (lookup_addresses parts (Option.get_or fetch_names false))
    pure (looked address_count looked_up)
