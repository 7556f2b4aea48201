-- ===== src/Database.antt =====
-- The rows of the database: `Model` of src/database/{wallet,transaction,name,player}.rs and the
-- tables that migrations/*.sql create. Amounts are NUMERIC(16, 2) columns, kept in hundredths; an
-- instant is a number; texts are only compared and measured here.
pub mod Externals
pub mod Sound
pub mod Closed
pub mod Keeps
pub mod Stays
pub mod Statements
pub mod Paging
pub mod Paginated
pub mod Wallets
pub mod Transactions
pub mod Names
pub mod Players
use kromer.Prelude.{ℕ, ℤ, pos, String, Option, none, List, Bool}

pub record Wallet : Type 0 where
  pub id : ℕ
  pub address : String
  pub balance : ℤ
  pub created_at : ℕ
  pub locked : Bool
  pub total_in : ℤ
  pub total_out : ℤ
  pub private_key : Option String
  pub names : Option ℕ

pub record VerifyResponse : Type 0 where
  pub authed : Bool
  pub wallet : Wallet

pub data TransactionType : Type 0 where
  mined unknown name_purchase name_a_record name_transfer transfer : TransactionType

pub record Transaction : Type 0 where
  pub id : ℕ
  pub amount : ℤ
  pub from : Option String
  pub to : String
  pub metadata : Option String
  pub name : Option String
  pub sent_metaname : Option String
  pub sent_name : Option String
  pub transaction_type : TransactionType
  pub date : ℕ

pub record TransactionCreateData : Type 0 where
  pub from : String
  pub to : String
  pub amount : ℤ
  pub metadata : Option String
  pub name : Option String
  pub sent_metaname : Option String
  pub sent_name : Option String
  pub transaction_type : TransactionType

-- `..Default::default()`
abbrev pub default_data : TransactionCreateData
default_data = record {
  from = "";
  to = "";
  amount = pos 0;
  metadata = none;
  name = none;
  sent_metaname = none;
  sent_name = none;
  transaction_type = mined;
}

pub record Name : Type 0 where
  pub id : ℕ
  pub last_transfered : Option ℕ
  pub last_updated : Option ℕ
  pub name : String
  pub owner : String
  pub original_owner : String
  pub time_registered : ℕ
  pub unpaid : ℤ
  pub metadata : Option String

pub record Player : Type 0 where
  pub id : ℕ
  pub name : String
  pub owned_wallets : List ℕ

pub record Tables : Type 0 where
  pub wallets : List Wallet
  pub transactions : List Transaction
  pub names : List Name
  pub players : List Player

-- The SERIAL sequences: the next identifier of each table. A rollback does not move them back.
pub record Serials : Type 0 where
  pub wallet_id : ℕ
  pub transaction_id : ℕ
  pub name_id : ℕ

-- `PaginationParams` of src/routes/mod.rs.
pub record PaginationParams : Type 0 where
  pub exclude_mined : Option Bool
  pub limit : Option ℤ
  pub offset : Option ℤ
