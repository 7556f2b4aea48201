-- ===== src/Models.antt =====
-- The JSON models of src/models/krist and src/models/kromer: what the routes send, with the
-- conversions from database rows. Serialisation itself is left to serde.
pub mod Messages
pub mod Motd
use kromer.Prelude.{ℕ, ℤ, pos, String, Option, none, some, List, Bool}
use mathlib.Core.Option
use kromer.Database.{Wallet, Transaction, TransactionType, Name}
use kromer.Database.Externals.{Externals}

-- models/krist/transactions.rs
pub record TransactionJson : Type 0 where
  pub id : ℕ
  pub from : Option String
  pub to : String
  pub value : ℤ
  pub time : String
  pub name : Option String
  pub metadata : Option String
  pub sent_metaname : Option String
  pub sent_name : Option String
  pub transaction_type : TransactionType

-- models/krist/names.rs
pub record NameJson : Type 0 where
  pub name : String
  pub owner : String
  pub original_owner : Option String
  pub registered : String
  pub updated : Option String
  pub transfered : Option String
  pub unpaid : ℤ

-- models/krist/addresses.rs
pub record AddressJson : Type 0 where
  pub address : String
  pub balance : ℤ
  pub total_in : ℤ
  pub total_out : ℤ
  pub first_seen : String
  pub names : Option ℕ

-- models/kromer/wallets.rs: a wallet without its private key.
pub record WalletResponse : Type 0 where
  pub id : ℕ
  pub address : String
  pub balance : ℤ
  pub created_at : ℕ
  pub locked : Bool
  pub total_in : ℤ
  pub total_out : ℤ
  pub names : Option ℕ

module _ (x : Externals) where
  -- `impl From<transaction::Model> for TransactionJson`
  unfoldable pub transaction_json : Transaction → TransactionJson
  transaction_json t = record {
    id = t.id;
    from = t.from;
    to = t.to;
    value = t.amount;
    time = x.to_rfc3339 t.date;
    name = t.name;
    metadata = t.metadata;
    sent_metaname = t.sent_metaname;
    sent_name = t.sent_name;
    transaction_type = t.transaction_type;
  }

  -- `impl From<name::Model> for NameJson`; `unpaid` is written as 0.
  unfoldable pub name_json : Name → NameJson
  name_json n = record {
    name = n.name;
    owner = n.owner;
    original_owner = some n.original_owner;
    registered = x.to_rfc3339 n.time_registered;
    updated = Option.map x.to_rfc3339 n.last_updated;
    transfered = Option.map x.to_rfc3339 n.last_transfered;
    unpaid = pos 0;
  }

  -- `impl From<wallet::Model> for AddressJson`
  unfoldable pub address_json : Wallet → AddressJson
  address_json w = record {
    address = w.address;
    balance = w.balance;
    total_in = w.total_in;
    total_out = w.total_out;
    first_seen = x.to_rfc3339 w.created_at;
    names = w.names;
  }

-- `impl From<wallet::Model> for Wallet`
unfoldable pub wallet_response : Wallet → WalletResponse
wallet_response w = record {
  id = w.id;
  address = w.address;
  balance = w.balance;
  created_at = w.created_at;
  locked = w.locked;
  total_in = w.total_in;
  total_out = w.total_out;
  names = w.names;
}
