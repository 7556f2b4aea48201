-- ===== src/Examples.antt =====
-- A small server to run the theorems on: two wallets, a name, and two sessions.
use Prim.Native.String.{◌++◌}
use kromer.Prelude.{ℕ, ℤ, pos, String, Option, none, some, List, [], ◌∷◌, Bool, true, false}
use kromer.Database.{Wallet, Name, Tables, Serials, Player, Transaction}
use kromer.Database.Externals.{Externals, Decimal}
use kromer.Examples.Digest.{demo_sha256, demo_sha256-IsDigest}
use kromer.Exec.{World}
use kromer.Routes.Serving.{Request}
use kromer.Routes.Transactions.{TransactionDetails}
use kromer.WebSockets.{
  own_transactions, transactions, blocks, WebSocketSessionData, WebSocketServer, WebSocketTokenData,
}
pub mod Digest
pub mod Runs
pub mod Names
pub mod Sockets
pub mod Gateway
pub mod Addresses
pub mod Purchases

-- Functions that are easy to compute. Under `demo_sha256` the key "aaaaaaaaa" has the address of Alice,
-- and "bbbbbbbbb" that of Bob.
abbrev pub simple : Externals
simple = record {
  sha256 = demo_sha256;
  patience = 9;
  is_digest = demo_sha256-IsDigest;
  to_lowercase = λ s. s;
  to_rfc3339 = λ n. "2025-01-01T00:00:00+00:00";
  round_dp2 = λ d. d.mantissa;
}

abbrev pub wallet_of : ℕ → String → ℤ → Wallet
wallet_of id address balance = record {
  id = id;
  address = address;
  balance = balance;
  created_at = 0;
  locked = false;
  total_in = pos 0;
  total_out = pos 0;
  private_key = some "000000000000000000";
  names = none;
}

abbrev pub alice : Wallet
alice = wallet_of 1 "k001000010" (pos 10000)

abbrev pub bob : Wallet
bob = wallet_of 2 "klllkklllk" (pos 500)

abbrev pub shop : Name
shop = record {
  id = 1;
  last_transfered = none;
  last_updated = none;
  name = "shop";
  owner = "klllkklllk";
  original_owner = "klllkklllk";
  time_registered = 0;
  unpaid = pos 0;
  metadata = none;
}

abbrev pub session : String → WebSocketSessionData
session address = record {
  address = address;
  private_key = none;
  closed = false;
  subscriptions = own_transactions ∷ blocks ∷ [];
  computer_id = none;
}

abbrev pub server : WebSocketServer
server = record {
  sessions = (1, session "klllkklllk") ∷ (2, session "guest") ∷ [];
  pending_tokens = [];
  outbox = [];
}

abbrev pub tables : Tables
tables = record { wallets = alice ∷ bob ∷ []; transactions = []; names = shop ∷ []; players = [] }

abbrev pub world : World
world = record {
  committed = tables;
  working = none;
  serials = record { wallet_id = 3; transaction_id = 1; name_id = 2 };
  faults = [];
  now = 7;
  server = server;
}

abbrev pub two_kromer : Decimal
two_kromer = record { mantissa = pos 200; scale = 2 }

abbrev pub to_bob : TransactionDetails
to_bob = record {
  private_key = "aaaaaaaaa";
  to = "klllkklllk";
  amount = two_kromer;
  metadata = none;
}

abbrev pub to_the_shop : TransactionDetails
to_the_shop = record to_bob { to = "till@shop.kro"; metadata = some "tea" }
