-- ===== src/Routes/Misc.antt =====
-- The handlers of src/routes/krist/misc.rs, with the addresses of the server that the environment gives.
use Prim.Native.String.{◌++◌}
use kromer.Prelude.{
  ℕ, ℤ, String, str_eq, Option, none, some, select, not, Bool, true, false, if◌then◌else◌,
}
use mathlib.Core.Option
use kromer.Errors.Krist.{KristError, custom}
use kromer.Database.{Wallet, VerifyResponse, Tables}
use kromer.Database.Externals.{Externals, make_v2_address}
use kromer.Database.Statements.{pool, query}
use kromer.Database.Wallets.{verify_address}
use kromer.Database.Wallets.Total.{total}
use kromer.Exec.{ok, Exec, ◌>>=◌, pure, ok_or, to_krist, sqlx_to_krist}
use kromer.Models.Motd.{DetailedMotd, BuildInfo, sent_constants, get_currency_info}

-- The variables that the code reads with `env::var`.
pub record Environment : Type 0 where
  pub public_url : Option String
  pub force_ws_insecure : Option String
  pub internal_key : Option String

-- `AddressAuthenticationResponse` of src/models/krist/auth.rs.
pub record AddressAuthenticationResponse : Type 0 where
  pub authed : Bool
  pub address : Option String

abbrev pub is_text : Option String → String → Bool
is_text none s = false
is_text (some t) s = str_eq t s

-- `PUBLIC_WS_URL`
unfoldable pub public_ws_url : Environment → Option String
public_ws_url env =
    let schema = if is_text env.force_ws_insecure "false" then "wss" else "ws" in
    Option.map (λ url. schema ++ ("://" ++ (url ++ "/api/krist/ws"))) env.public_url

-- `make_url` of src/websockets/utils/make_url.rs, given how a UUID is printed.
unfoldable pub make_url : Environment → String → Option String
make_url env uuid =
    let force_insecure = Option.get_or env.force_ws_insecure "true" in
    let schema = if str_eq force_insecure "true" then "ws" else "wss" in
    Option.map (λ url. schema ++ ("://" ++ (url ++ ("/api/krist/ws/gateway/" ++ uuid))))
      env.public_url

-- `internal_key_guard` of src/guards.rs, given the request's header; `none` is the panic without a key.
unfoldable pub internal_key_guard : Environment → Option String → Option Bool
internal_key_guard env header = Option.map (is_text header) env.internal_key

abbrev pub server_config_error : KristError
server_config_error = custom "server_config_error"

unfoldable pub get_motd : Environment → BuildInfo → String → Exec KristError DetailedMotd
get_motd env build server_time = do
  url ← ok_or env.public_url server_config_error
  ws_url ← ok_or (public_ws_url env) server_config_error
  pure (record {
    server_time = server_time;
    motd = "Message of the day";
    set = none;
    motd_set = none;
    public_url = url;
    public_ws_url = ws_url;
    mining_enabled = false;
    transactions_enabled = true;
    debug_mode = true;
    work = 500;
    last_block = none;
    «package» = record {
      name = "Kromer";
      version = "0.2.0";
      author = "ReconnectedCC Team";
      license = "GPL-3.0";
      repository = "https://github.com/ReconnectedCC/kromer2/";
      git_hash = build.git_commit_hash;
    };
    constants = sent_constants;
    currency = get_currency_info;
    notice = "Some awesome notice will go here";
  })

unfoldable pub get_walletversion : ℕ
get_walletversion = 3

-- `SELECT COALESCE(SUM(balance), 0) FROM wallets WHERE address != 'serverwelf'`
abbrev pub supply_of : Tables → ℤ
supply_of t = total (select (λ (w : Wallet). not (str_eq w.address "serverwelf")) t.wallets)

unfoldable pub get_kromer_supply : Exec KristError ℤ
get_kromer_supply = sqlx_to_krist (query pool (λ t. ok (supply_of t)))

abbrev pub authentication : VerifyResponse → AddressAuthenticationResponse
authentication result = record {
  authed = result.authed;
  address = if result.authed then some result.wallet.address else none;
}

module _ (x : Externals) where
  unfoldable pub login_address : String → Exec KristError AddressAuthenticationResponse
  login_address private_key = do
    result ← to_krist (verify_address x pool private_key)
    pure (authentication result)

  unfoldable pub get_v2_address : String → String
  get_v2_address private_key = make_v2_address x private_key
