-- ===== src/Routes/Spares/Requests.antt =====
-- Any request of Routes/Serving, and the wallets at other addresses than that of its key.
use kromer.Prelude.{String, Option, none, some}
use kromer.Database.Externals.{Externals}
use kromer.Exec.{World}
use kromer.Models.Messages.{WebSocketMessageInner}
use kromer.Routes.Serving.{Request, transfer, register, message}
use kromer.WebSockets.Handler.{key_or_session}
use kromer.WebSockets.Server.{fetch_session_data}

-- The key that a request pays with: the one that it carries, or for a message its session's.
abbrev pub key_of : Request → World → Option String
key_of (transfer d) w = some d.private_key
key_of (register n key) w = key
key_of (message uuid id (WebSocketMessageInner.make_transaction key to amount metadata)) w =
    key_or_session key (fetch_session_data uuid w.server)
key_of _ w = none
