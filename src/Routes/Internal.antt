-- ===== src/Routes/Internal.antt =====
-- The handlers of src/routes/internal/wallet.rs and src/routes/v1/wallet.rs.
use kromer.Prelude.{ℕ, ℤ, pos, leb_ℤ, String, List, map}
use kromer.Errors.{KromerError, WalletError, PlayerError, validation, wallet, player}
use kromer.Database.{Wallet, TransactionCreateData, default_data, mined}
use kromer.Database.Externals.{Externals, Decimal}
use kromer.Database.Statements.{pool, tx}
use kromer.Database.Wallets.{fetch_by_address, verify_address, set_balance, update_balance}
use kromer.Database.Players as Players
use kromer.Database.Players.{add_wallet_to_owned, owned_wallets}
use kromer.Database.Transactions.{create_no_update}
use kromer.Exec.{
  Exec, ◌>>=◌, ◌>>◌, pure, throw_if, ok_or, begin, commit, scoped, to_kromer, sqlx_to_kromer,
}
use kromer.Models.{WalletResponse, wallet_response}

-- `AddressCreationResponse` of src/models/krist/addresses.rs.
pub record AddressCreationResponse : Type 0 where
  pub private_key : String
  pub address : String

abbrev pub starting_balance : ℤ
starting_balance = pos 10000

-- The data of the transaction that records a gift.
abbrev pub gift_data : String → ℤ → TransactionCreateData
gift_data to amount = record default_data {
  from = "serverwelf";
  to = to;
  amount = amount;
  transaction_type = mined;
}

module _ (x : Externals) where
  -- `private_key` is the password that `generate_random_password` drew. The player and the wallet
  -- are written through the pool, outside the transaction.
  unfoldable pub wallet_create : ℕ → String → String → Exec KromerError AddressCreationResponse
  wallet_create uuid name private_key = scoped do
    sqlx_to_kromer begin
    p ← to_kromer (Players.create pool uuid name)
    verified ← to_kromer (verify_address x pool private_key)
    updated ← set_balance verified.wallet tx starting_balance
    to_kromer (add_wallet_to_owned p tx updated)
    sqlx_to_kromer commit
    pure (record { private_key = private_key; address = updated.address })

  unfoldable pub wallet_give_money : String → Decimal → Exec KromerError Wallet
  wallet_give_money address raw = scoped do
    let amount = x.round_dp2 raw
    throw_if (leb_ℤ amount (pos 0)) (validation "Invalid amount")
    sqlx_to_kromer begin
    found ← to_kromer (fetch_by_address tx address)
    w ← ok_or found (wallet (WalletError.not_found address))
    updated ← sqlx_to_kromer (update_balance w tx amount)
    to_kromer (create_no_update tx (gift_data address amount))
    sqlx_to_kromer commit
    pure updated

-- The internal route answers with the wallets as they are, private keys included.
unfoldable pub wallet_get_by_uuid : ℕ → Exec KromerError (List Wallet)
wallet_get_by_uuid uuid = scoped do
  sqlx_to_kromer begin
  found ← to_kromer (Players.fetch_by_id tx uuid)
  p ← ok_or found (player PlayerError.not_found)
  wallets ← to_kromer (owned_wallets p tx)
  sqlx_to_kromer commit
  pure wallets

-- src/routes/v1/wallet.rs: the same by identifier, and by name, without the private keys.
unfoldable pub public_wallets_by_uuid : ℕ → Exec KromerError (List WalletResponse)
public_wallets_by_uuid uuid = do
  wallets ← wallet_get_by_uuid uuid
  pure (map wallet_response wallets)

unfoldable pub public_wallets_by_name : String → Exec KromerError (List WalletResponse)
public_wallets_by_name name = scoped do
  sqlx_to_kromer begin
  found ← to_kromer (Players.fetch_by_name tx name)
  p ← ok_or found (player PlayerError.not_found)
  wallets ← to_kromer (owned_wallets p tx)
  sqlx_to_kromer commit
  pure (map wallet_response wallets)
