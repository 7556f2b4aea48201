-- ===== src/Routes/Routing/Table.antt =====
-- The `config` functions of src/routes, and the paths of the handlers' attributes.
use mathlib.Core.Option
use kromer.Prelude.{String, List, [], ◌∷◌, Bool}
use kromer.Routes.Routing.{
  Method, Endpoint, Answer, not_found, Service, fixed, by_parameter, under, over, put_or_post,
  first_of, after_prefix, scope, guarded,
}

-- src/routes/v1/wallet.rs, ws.rs and mod.rs
abbrev pub v1_wallet_config : Service
v1_wallet_config = scope ("wallet" ∷ []) (
    under Method.get "by-name" Endpoint.v1_wallet_get_by_name
    ∷ under Method.get "by-player" Endpoint.v1_wallet_get_by_uuid
    ∷ [])

abbrev pub v1_ws_config : Service
v1_ws_config =
    scope ("ws" ∷ [])
      (fixed Method.get ("session" ∷ "count" ∷ []) Endpoint.ws_session_get_count ∷ [])

abbrev pub v1_config : List Service
v1_config = v1_wallet_config ∷ v1_ws_config ∷ []

-- src/routes/internal/wallet.rs, ws.rs and mod.rs
abbrev pub internal_wallet_config : Service
internal_wallet_config = scope ("wallet" ∷ []) (
    fixed Method.post ("create" ∷ []) Endpoint.wallet_create
    ∷ fixed Method.post ("give-money" ∷ []) Endpoint.wallet_give_money
    ∷ under Method.get "by-player" Endpoint.wallet_get_by_uuid
    ∷ [])

abbrev pub internal_ws_config : Service
internal_ws_config = scope ("ws" ∷ []) (
    fixed Method.get ("session" ∷ []) Endpoint.get_session
    ∷ fixed Method.get ("sessions" ∷ []) Endpoint.get_sessions
    ∷ [])

abbrev pub internal_config : List Service
internal_config = internal_wallet_config ∷ internal_ws_config ∷ []

-- src/routes/krist
abbrev pub lookup_config : List Service
lookup_config =
    scope ("addresses" ∷ []) (by_parameter Method.get Endpoint.addresses_lookup ∷ []) ∷ []

abbrev pub wallet_config : Service
wallet_config = scope ("addresses" ∷ []) (
    fixed Method.get ("rich" ∷ []) Endpoint.wallet_richest
    ∷ by_parameter Method.get Endpoint.wallet_get
    ∷ over Method.get "transactions" Endpoint.wallet_get_transactions
    ∷ over Method.get "names" Endpoint.wallet_get_names
    ∷ fixed Method.get [] Endpoint.wallet_list
    ∷ [])

abbrev pub transactions_config : Service
transactions_config = scope ("transactions" ∷ []) (
    fixed Method.post [] Endpoint.transaction_create
    ∷ fixed Method.get ("latest" ∷ []) Endpoint.transaction_latest
    ∷ by_parameter Method.get Endpoint.transaction_get
    ∷ fixed Method.get [] Endpoint.transaction_list
    ∷ [])

abbrev pub ws_config : Service
ws_config = scope ("ws" ∷ []) (
    fixed Method.post ("start" ∷ []) Endpoint.setup_ws
    ∷ under Method.get "gateway" Endpoint.gateway
    ∷ [])

abbrev pub names_config : Service
names_config = scope ("names" ∷ []) (
    fixed Method.get [] Endpoint.name_list
    ∷ fixed Method.get ("cost" ∷ []) Endpoint.name_cost
    ∷ under Method.get "check" Endpoint.name_check
    ∷ fixed Method.get ("bonus" ∷ []) Endpoint.name_bonus
    ∷ fixed Method.get ("new" ∷ []) Endpoint.name_new
    ∷ by_parameter Method.get Endpoint.name_get
    ∷ by_parameter Method.post Endpoint.name_register
    ∷ over Method.post "transfer" Endpoint.name_transfer
    ∷ put_or_post "update" Endpoint.name_update_data
    ∷ [])

-- `get_walletversion` is not registered.
abbrev pub misc_config : Service
misc_config = scope [] (
    fixed Method.post ("login" ∷ []) Endpoint.login_address
    ∷ fixed Method.get ("motd" ∷ []) Endpoint.get_motd
    ∷ fixed Method.get ("supply" ∷ []) Endpoint.get_kromer_supply
    ∷ fixed Method.post ("v2" ∷ []) Endpoint.get_v2_address
    ∷ [])

abbrev pub krist_config : List Service
krist_config =
    scope ("lookup" ∷ []) lookup_config
    ∷ fixed Method.get [] Endpoint.krist_index_get
    ∷ wallet_config
    ∷ transactions_config
    ∷ ws_config
    ∷ names_config
    ∷ misc_config
    ∷ []

-- `has_key` is what the guard of the internal routes says of the request.
abbrev pub config : Bool → List Service
config has_key =
    scope ("api" ∷ "v1" ∷ []) v1_config
    ∷ scope ("api" ∷ "krist" ∷ []) krist_config
    ∷ guarded has_key (scope ("api" ∷ "_internal" ∷ []) internal_config)
    ∷ scope [] (fixed Method.get [] Endpoint.index_get ∷ [])
    ∷ []

-- `.configure(routes::config).default_service(…)` of src/main.rs
unfoldable pub route : Bool → Method → List String → Answer
unfolding fixed by_parameter under over put_or_post first_of after_prefix scope guarded
route has_key m p = Option.get_or (first_of (config has_key) m p) not_found

-- The method that a handler's attribute names; `name_update_data` takes PUT as well.
unfoldable pub method_of : Endpoint → Method
method_of Endpoint.wallet_create = Method.post
method_of Endpoint.wallet_give_money = Method.post
method_of Endpoint.transaction_create = Method.post
method_of Endpoint.setup_ws = Method.post
method_of (Endpoint.name_register n) = Method.post
method_of (Endpoint.name_update_data n) = Method.post
method_of (Endpoint.name_transfer n) = Method.post
method_of Endpoint.login_address = Method.post
method_of Endpoint.get_v2_address = Method.post
method_of _ = Method.get

abbrev krist : List String → List String
krist p = "api" ∷ "krist" ∷ p

-- The path that the API's documentation gives to a handler.
unfoldable pub path_of : Endpoint → List String
path_of Endpoint.index_get = []
path_of Endpoint.krist_index_get = krist []
path_of (Endpoint.v1_wallet_get_by_uuid u) = "api" ∷ "v1" ∷ "wallet" ∷ "by-player" ∷ u ∷ []
path_of (Endpoint.v1_wallet_get_by_name n) = "api" ∷ "v1" ∷ "wallet" ∷ "by-name" ∷ n ∷ []
path_of Endpoint.ws_session_get_count = "api" ∷ "v1" ∷ "ws" ∷ "session" ∷ "count" ∷ []
path_of Endpoint.wallet_create = "api" ∷ "_internal" ∷ "wallet" ∷ "create" ∷ []
path_of Endpoint.wallet_give_money = "api" ∷ "_internal" ∷ "wallet" ∷ "give-money" ∷ []
path_of (Endpoint.wallet_get_by_uuid u) = "api" ∷ "_internal" ∷ "wallet" ∷ "by-player" ∷ u ∷ []
path_of Endpoint.get_session = "api" ∷ "_internal" ∷ "ws" ∷ "session" ∷ []
path_of Endpoint.get_sessions = "api" ∷ "_internal" ∷ "ws" ∷ "sessions" ∷ []
path_of (Endpoint.addresses_lookup a) = krist ("lookup" ∷ "addresses" ∷ a ∷ [])
path_of Endpoint.wallet_list = krist ("addresses" ∷ [])
path_of Endpoint.wallet_richest = krist ("addresses" ∷ "rich" ∷ [])
path_of (Endpoint.wallet_get a) = krist ("addresses" ∷ a ∷ [])
path_of (Endpoint.wallet_get_transactions a) = krist ("addresses" ∷ a ∷ "transactions" ∷ [])
path_of (Endpoint.wallet_get_names a) = krist ("addresses" ∷ a ∷ "names" ∷ [])
path_of Endpoint.transaction_list = krist ("transactions" ∷ [])
path_of Endpoint.transaction_create = krist ("transactions" ∷ [])
path_of Endpoint.transaction_latest = krist ("transactions" ∷ "latest" ∷ [])
path_of (Endpoint.transaction_get i) = krist ("transactions" ∷ i ∷ [])
path_of Endpoint.setup_ws = krist ("ws" ∷ "start" ∷ [])
path_of (Endpoint.gateway t) = krist ("ws" ∷ "gateway" ∷ t ∷ [])
path_of Endpoint.name_list = krist ("names" ∷ [])
path_of Endpoint.name_cost = krist ("names" ∷ "cost" ∷ [])
path_of Endpoint.name_bonus = krist ("names" ∷ "bonus" ∷ [])
path_of Endpoint.name_new = krist ("names" ∷ "new" ∷ [])
path_of (Endpoint.name_check n) = krist ("names" ∷ "check" ∷ n ∷ [])
path_of (Endpoint.name_get n) = krist ("names" ∷ n ∷ [])
path_of (Endpoint.name_register n) = krist ("names" ∷ n ∷ [])
path_of (Endpoint.name_update_data n) = krist ("names" ∷ n ∷ "update" ∷ [])
path_of (Endpoint.name_transfer n) = krist ("names" ∷ n ∷ "transfer" ∷ [])
path_of Endpoint.login_address = krist ("login" ∷ [])
path_of Endpoint.get_motd = krist ("motd" ∷ [])
path_of Endpoint.get_kromer_supply = krist ("supply" ∷ [])
path_of Endpoint.get_v2_address = krist ("v2" ∷ [])
