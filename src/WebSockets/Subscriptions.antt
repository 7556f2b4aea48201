-- ===== src/WebSockets/Subscriptions.antt =====
-- `WebSocketSubscriptionType` of src/websockets/types/common.rs: its texts, and sets of it.
use kromer.Prelude.{
  String, str_eq, Option, none, some, List, [], ◌∷◌, Bool, true, false, ◌||◌, if◌then◌else◌, push,
}
use kromer.WebSockets.{
  WebSocketSubscriptionType, blocks, own_blocks, transactions, own_transactions, names, own_names,
  motd, WebSocketSessionData,
}

-- `into_string`, and `Display`
unfoldable pub into_string : WebSocketSubscriptionType → String
into_string blocks = "blocks"
into_string own_blocks = "ownBlocks"
into_string transactions = "transactions"
into_string own_transactions = "ownTransactions"
into_string names = "names"
into_string own_names = "ownNames"
into_string motd = "motd"

-- `FromStr`
unfoldable pub from_str : String → Option WebSocketSubscriptionType
from_str input =
    if str_eq input "blocks"
    then some blocks
    else if str_eq input "ownBlocks"
    then some own_blocks
    else if str_eq input "transactions"
    then some transactions
    else if str_eq input "ownTransactions"
    then some own_transactions
    else if str_eq input "names"
    then some names
    else if str_eq input "ownNames"
    then some own_names
    else if str_eq input "motd"
    then some motd
    else none

unfoldable pub is_valid : String → Bool
unfolding from_str
is_valid input = elim (from_str input) [ none ↦ false | some _ ↦ true ]

unfoldable pub same : WebSocketSubscriptionType → WebSocketSubscriptionType → Bool
same blocks blocks = true
same own_blocks own_blocks = true
same transactions transactions = true
same own_transactions own_transactions = true
same names names = true
same own_names own_names = true
same motd motd = true
same _ _ = false

-- `HashSet::contains_sync`, `insert_sync`, `remove_sync`
unfoldable pub contains : WebSocketSubscriptionType → List WebSocketSubscriptionType → Bool
unfolding same
contains e [] = false
contains e (f ∷ fs) = same e f || contains e fs

unfoldable pub insert :
    WebSocketSubscriptionType → List WebSocketSubscriptionType → List WebSocketSubscriptionType
unfolding contains
insert e fs = if contains e fs then fs else push fs e

unfoldable pub remove :
    WebSocketSubscriptionType → List WebSocketSubscriptionType → List WebSocketSubscriptionType
unfolding same
remove e [] = []
remove e (f ∷ fs) = let rest = remove e fs in if same e f then rest else f ∷ rest

unfoldable pub is_guest : WebSocketSessionData → Bool
is_guest d = str_eq d.address "guest"

unfoldable pub is_subscribed_to : WebSocketSessionData → WebSocketSubscriptionType → Bool
unfolding contains
is_subscribed_to d e = contains e d.subscriptions
