-- ===== src/Routes/Routing/Reached.antt =====
-- Every handler is reached at its path, and the internal ones only with the key.

use kromer.Prelude.{String, str_eq, ◌≡◌, refl, [], Bool, true, false, arith}
use kromer.Routes.Routing.{
  Method, Endpoint, handled, fixed, by_parameter, under, over, put_or_post, first_of, after_prefix,
  scope, guarded,
}
use kromer.Routes.Routing.Table.{route, method_of, path_of}

abbrev pub Filled : String → Type 0
Filled s = str_eq s "" ≡ false

-- The parameters are not empty and are not taken by a path that is registered before; the internal
-- handlers need the key.
abbrev pub Open : Bool → Endpoint → Type 0
Open key (Endpoint.v1_wallet_get_by_uuid u) = Filled u
Open key (Endpoint.v1_wallet_get_by_name n) = Filled n
Open key Endpoint.wallet_create = key ≡ true
Open key Endpoint.wallet_give_money = key ≡ true
Open key (Endpoint.wallet_get_by_uuid u) = Filled u × (key ≡ true)
Open key Endpoint.get_session = key ≡ true
Open key Endpoint.get_sessions = key ≡ true
Open key (Endpoint.addresses_lookup a) = Filled a
Open key (Endpoint.wallet_get a) = Filled a × (str_eq "rich" a ≡ false)
Open key (Endpoint.wallet_get_transactions a) = Filled a
Open key (Endpoint.wallet_get_names a) = Filled a
Open key (Endpoint.transaction_get i) = Filled i × (str_eq "latest" i ≡ false)
Open key (Endpoint.gateway t) = Filled t
Open key (Endpoint.name_check n) = Filled n
Open key (Endpoint.name_get n) =
    Filled n × ((str_eq "cost" n ≡ false) × ((str_eq "bonus" n ≡ false) × (str_eq "new" n ≡ false)))
Open key (Endpoint.name_register n) = Filled n
Open key (Endpoint.name_update_data n) = Filled n
Open key (Endpoint.name_transfer n) = Filled n
Open key _ = Unit

route-root : (key : Bool) → route key Method.get [] ≡ handled Endpoint.index_get
unfolding route fixed first_of after_prefix scope guarded
route-root true = refl
route-root false = refl

-- Every registered handler is what a request with its method and its path goes to, for all values of
-- the path's parameters that are not empty, except that `rich`, `latest`, `cost`, `bonus` and `new` are
-- no addresses, transactions or names to look up; the internal handlers if the request has the key.
pub route-path_of :
    (key : Bool) (e : Endpoint) → Open key e → route key (method_of e) (path_of e) ≡ handled e
unfolding route method_of path_of fixed by_parameter under over put_or_post first_of after_prefix
    scope guarded
route-path_of key Endpoint.wallet_create h = rw h refl
route-path_of key Endpoint.wallet_give_money h = rw h refl
route-path_of key Endpoint.get_session h = rw h refl
route-path_of key Endpoint.get_sessions h = rw h refl
route-path_of key (Endpoint.v1_wallet_get_by_uuid u) h = ground (arith, h)
route-path_of key (Endpoint.v1_wallet_get_by_name n) h = ground (arith, h)
route-path_of key (Endpoint.addresses_lookup a) h = ground (arith, h)
route-path_of key (Endpoint.wallet_get_transactions a) h = ground (arith, h)
route-path_of key (Endpoint.wallet_get_names a) h = ground (arith, h)
route-path_of key (Endpoint.gateway t) h = ground (arith, h)
route-path_of key (Endpoint.name_check n) h = ground (arith, h)
route-path_of key (Endpoint.name_register n) h = ground (arith, h)
route-path_of key (Endpoint.name_update_data n) h = ground (arith, h)
route-path_of key (Endpoint.name_transfer n) h = ground (arith, h)
route-path_of key (Endpoint.name_get n) h = ground (arith, h)
route-path_of key (Endpoint.wallet_get a) h = ground (arith, h)
route-path_of key (Endpoint.transaction_get i) h = ground (arith, h)
route-path_of key (Endpoint.wallet_get_by_uuid u) h = ground (arith, h)
route-path_of key Endpoint.index_get h = route-root key
route-path_of key _ h = refl
