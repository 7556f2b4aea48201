-- ===== src/Models/Motd.antt =====
-- The description of the server that src/models/krist/motd.rs declares, and the one that
-- src/websockets/handler.rs sends when a session starts.
use kromer.Prelude.{ℕ, String, Option, none, Bool, true, false}

-- models/krist/blocks.rs, but for its floating-point numbers: no block is ever built.
pub record BlockJson : Type 0 where
  pub address : String
  pub hash : Option String
  pub short_hash : Option String
  pub time : String

pub record PackageInfo : Type 0 where
  pub name : String
  pub version : String
  pub author : String
  pub license : String
  pub repository : String
  pub git_hash : Option String

-- `work_factor` is a floating-point number; the two that are sent are whole.
pub record Constants : Type 0 where
  pub wallet_version : ℕ
  pub nonce_max_size : ℕ
  pub name_cost : ℕ
  pub min_work : ℕ
  pub max_work : ℕ
  pub work_factor : ℕ
  pub seconds_per_block : ℕ

pub record CurrencyInfo : Type 0 where
  pub address_prefix : String
  pub name_suffix : String
  pub currency_name : String
  pub currency_symbol : String

pub record DetailedMotd : Type 0 where
  pub server_time : String
  pub motd : String
  pub set : Option String
  pub motd_set : Option String
  pub public_url : String
  pub public_ws_url : String
  pub mining_enabled : Bool
  pub transactions_enabled : Bool
  pub debug_mode : Bool
  pub work : ℕ
  pub last_block : Option BlockJson
  pub «package» : PackageInfo
  pub constants : Constants
  pub currency : CurrencyInfo
  pub notice : String

-- What the build script writes into `build_info`.
pub record BuildInfo : Type 0 where
  pub pkg_name : String
  pub pkg_version : String
  pub git_commit_hash : Option String

abbrev pub get_currency_info : CurrencyInfo
get_currency_info = record {
  address_prefix = "k";
  name_suffix = "kro";
  currency_name = "Kromer";
  currency_symbol = "KRO";
}

abbrev pub sent_constants : Constants
sent_constants = record {
  wallet_version = 3;
  nonce_max_size = 500;
  name_cost = 500;
  min_work = 50;
  max_work = 500;
  work_factor = 500;
  seconds_per_block = 5000;
}

-- The data of `send_hello_message`, at a time.
unfoldable pub hello_motd : BuildInfo → String → DetailedMotd
hello_motd build server_time = record {
  server_time = server_time;
  motd = "Message of the day";
  set = none;
  motd_set = none;
  public_url = "http://kromer.reconnected.cc";
  public_ws_url = "http://kromer.reconnected.cc/api/krist/ws";
  mining_enabled = false;
  transactions_enabled = true;
  debug_mode = true;
  work = 500;
  last_block = none;
  «package» = record {
    name = build.pkg_name;
    version = build.pkg_version;
    author = "ReconnectedCC Team";
    license = "GPL-3.0";
    repository = "https://github.com/ReconnectedCC/kromer/";
    git_hash = build.git_commit_hash;
  };
  constants = sent_constants;
  currency = get_currency_info;
  notice = "Some awesome notice will go here";
}
