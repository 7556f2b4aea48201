-- ===== src/Routes/Routing.antt =====
-- Which handler a request goes to: the `config` functions of src/routes, the guard of the internal
-- routes, and the default service of src/main.rs. A service of the framework takes a request or leaves
-- it to the next one; a scope takes every path that begins with its own, and answers not found where
-- none of its services takes the rest. A path is the list of its segments, and `/` the empty one; a
-- parameter stands for one segment that is not empty.
pub mod Table
pub mod Reached
pub mod Guarded
use mathlib.Core.Option
use kromer.Prelude.{
  String, str_eq, Option, none, some, List, [], ◌∷◌, Bool, true, false, ◌&&◌, not, if◌then◌else◌,
}

pub data Method : Type 0 where
  get post put other : Method

abbrev pub same_method : Method → Method → Bool
same_method Method.get Method.get = true
same_method Method.post Method.post = true
same_method Method.put Method.put = true
same_method Method.other Method.other = true
same_method _ _ = false

-- The handlers that are registered, with the parameters of their paths.
pub data Endpoint : Type 0 where
  -- src/routes/mod.rs and src/routes/krist/mod.rs
  index_get krist_index_get : Endpoint
  -- src/routes/v1
  v1_wallet_get_by_uuid v1_wallet_get_by_name : String → Endpoint
  ws_session_get_count : Endpoint
  -- src/routes/internal
  wallet_create wallet_give_money : Endpoint
  wallet_get_by_uuid : String → Endpoint
  get_session get_sessions : Endpoint
  -- src/routes/krist/lookup
  addresses_lookup : String → Endpoint
  -- src/routes/krist/wallet.rs
  wallet_list wallet_richest : Endpoint
  wallet_get wallet_get_transactions wallet_get_names : String → Endpoint
  -- src/routes/krist/transactions.rs
  transaction_list transaction_create transaction_latest : Endpoint
  transaction_get : String → Endpoint
  -- src/routes/krist/ws.rs
  setup_ws : Endpoint
  gateway : String → Endpoint
  -- src/routes/krist/names.rs
  name_list name_cost name_bonus name_new : Endpoint
  name_check name_get name_register name_update_data name_transfer : String → Endpoint
  -- src/routes/krist/misc.rs
  login_address get_motd get_kromer_supply get_v2_address : Endpoint

pub data Answer : Type 0 where
  handled : Endpoint → Answer
  not_found method_not_allowed : Answer

-- A service: what it answers to a method and a path, or that it leaves them to the next.
abbrev pub Service : Type 0
Service = Method → List String → Option Answer

abbrev pub same_path : List String → List String → Bool
same_path [] [] = true
same_path (s ∷ p) (t ∷ q) = str_eq s t && same_path p q
same_path _ _ = false

abbrev pub when : Bool → Endpoint → Option Answer
when b e = if b then some (handled e) else none

abbrev pub is_segment : String → Bool
is_segment s = not (str_eq s "")

-- `#[get("/a/b")]`
unfoldable pub fixed : Method → List String → Endpoint → Service
fixed m path e m' p = when (same_method m m' && same_path path p) e

-- `#[get("/{a}")]`
unfoldable pub by_parameter : Method → (String → Endpoint) → Service
by_parameter m f m' (s ∷ []) = when (same_method m m' && is_segment s) (f s)
by_parameter m f m' _ = none

-- `#[get("/a/{b}")]`
unfoldable pub under : Method → String → (String → Endpoint) → Service
under m first f m' (s ∷ t ∷ []) = when (same_method m m' && str_eq s first && is_segment t) (f t)
under m first f m' _ = none

-- `#[get("/{a}/b")]`
unfoldable pub over : Method → String → (String → Endpoint) → Service
over m last f m' (s ∷ t ∷ []) = when (same_method m m' && is_segment s && str_eq t last) (f s)
over m last f m' _ = none

-- `web::resource("/{a}/b").put(f).post(f)`: another method is refused.
unfoldable pub put_or_post : String → (String → Endpoint) → Service
put_or_post last f m (s ∷ t ∷ []) =
    if is_segment s && str_eq t last
    then some (
        if same_method m Method.put
        then handled (f s)
        else if same_method m Method.post
        then handled (f s)
        else method_not_allowed)
    else none
put_or_post last f m _ = none

-- The services of a configuration, in the order in which they are registered.
unfoldable pub first_of : List Service → Service
first_of [] m p = none
first_of (s ∷ ss) m p = let rest = first_of ss m p in elim (s m p) [ none ↦ rest | some a ↦ some a ]

-- The rest of a path after a prefix.
unfoldable pub after_prefix : List String → List String → Option (List String)
after_prefix [] p = some p
after_prefix (s ∷ ss) [] = none
after_prefix (s ∷ ss) (t ∷ p) = let rest = after_prefix ss p in if str_eq s t then rest else none

-- `web::scope("/a/b").service(…)`
unfoldable pub scope : List String → List Service → Service
scope path services m p =
    Option.map (λ rest. Option.get_or (first_of services m rest) not_found) (after_prefix path p)

-- `.guard(…)`: a scope whose guard refuses leaves the request to the next service.
unfoldable pub guarded : Bool → Service → Service
guarded true s m p = s m p
guarded false s m p = none
