-- ===== src/Routes/Gateway.antt =====
-- The websocket gateway, src/routes/krist/ws.rs: the route that issues tokens, and the two tasks of a
-- connection, which are steps on its state. Times are in milliseconds.
pub mod Events
pub mod Removal
pub mod Ends
pub mod Life
use Prim.Native.String.{count}
use kromer.Prelude.{
  ℕ, ◌-◌, ℤ, String, Option, none, some, List, [], ◌∷◌, push, Bool, true, false, not, ◌&&◌, ltb,
  if◌then◌else◌,
}
use kromer.Database.Externals.{Externals}
use kromer.Database.Statements.{pool}
use kromer.Database.Wallets.{verify_address}
use kromer.Errors.{KromerError}
use kromer.Errors.Krist.{KristError, address, auth_failed, web_socket, invalid_websocket_token}
use kromer.Exec.{Outcome, ok, err, panic, World, Exec, ◌>>=◌, pure, ok_or, map_err}
use kromer.Models.Messages.{WebSocketMessage, WebSocketMessageInner}
use kromer.Models.Motd.{BuildInfo, hello_motd}
use kromer.Routes.Misc.{Environment, make_url, server_config_error}
use kromer.WebSockets.{WebSocketTokenData, WebSocketServer}
use kromer.WebSockets.Handler.{process_text_msg}
use kromer.WebSockets.Server.{obtain_token, use_token, insert_session, cleanup_session}

abbrev pub guest_token : Option ℤ → WebSocketTokenData
guest_token computer_id = record {
  address = "guest";
  private_key = none;
  computer_id = computer_id;
}

-- `server.obtain_token`; `none` where no identifier of the draws is free.
abbrev pub token_of : Option (ℕ × WebSocketServer) → Exec KristError (Option ℕ)
token_of none w = (ok none, w)
token_of (some (uuid, s)) w = (ok (some uuid), record w { server = s })

unfoldable pub issue_token : List ℕ → WebSocketTokenData → Exec KristError (Option ℕ)
unfolding obtain_token
issue_token draws d w = token_of (obtain_token draws d w.server) w

module _ (x : Externals) where
  -- Whether the key is right is not looked at.
  abbrev pub token_data : Option String → Option ℤ → Exec KristError WebSocketTokenData
  token_data none computer_id = pure (guest_token computer_id)
  token_data (some key) computer_id = do
    result ← map_err (λ _. some (KristError.address auth_failed)) (verify_address x pool key)
    pure (record {
      address = result.wallet.address;
      private_key = some key;
      computer_id = computer_id;
    })

  abbrev pub url_of : Environment → (ℕ → String) → Option ℕ → Exec KristError (Option String)
  url_of env print none = pure none
  url_of env print (some uuid) = do
    url ← ok_or (make_url env (print uuid)) server_config_error
    pure (some url)

  -- `print` prints a UUID; `draws` are those that `Uuid::new_v4` draws.
  unfoldable pub setup_ws :
      Environment
      → (ℕ → String)
      → List ℕ
      → Option String
      → Option ℤ
      → Exec KristError (Option String)
  setup_ws env print draws private_key computer_id = do
    data' ← token_data private_key computer_id
    uuid ← issue_token draws data'
    url_of env print uuid

-- A frame that the gateway sends; the notice that a message is too long is a text of its own.
pub data Frame : Type 0 where
  ping pong too_long : Frame
  text : WebSocketMessage → Frame

-- `alive`, `session_closed`, whether each task is still running, whether the peer is gone, so that a send
-- returns `Closed`, and the frames that were sent.
pub record Connection : Type 0 where
  pub uuid : ℕ
  pub alive : ℕ
  pub session_closed : Bool
  pub heartbeat : Bool
  pub reading : Bool
  pub gone : Bool
  pub sent : List Frame

-- `session.text(…)` and `session.pong(…)`
abbrev pub send : Frame → Connection → Connection
send f c = if c.gone then c else record c { sent = push c.sent f }

-- `aggregated` messages of the stream.
pub data AggregatedMessage : Type 0 where
  ping pong close binary : AggregatedMessage
  text : String → AggregatedMessage

abbrev pub client_timeout : ℕ
client_timeout = 10000

-- `send_hello_message`
abbrev pub hello : BuildInfo → String → WebSocketMessage
unfolding hello_motd
hello build time = record {
  ok = some true;
  id = none;
  inner = WebSocketMessageInner.hello (hello_motd build time);
}

abbrev pub keepalive : String → WebSocketMessage
keepalive time = record {
  ok = none;
  id = none;
  inner = WebSocketMessageInner.keepalive (some time);
}

pub data GatewayError : Type 0 where
  krist : KristError → GatewayError
  handshake : GatewayError

abbrev pub opened : ℕ → ℕ → Connection
opened uuid now = record {
  uuid = uuid;
  alive = now;
  session_closed = false;
  heartbeat = true;
  reading = true;
  gone = false;
  sent = [];
}

-- The route once the token is redeemed, given the framework's answer to the handshake.
unfoldable pub accept :
    BuildInfo
    → ℕ
    → Bool
    → ℕ
    → String
    → Option WebSocketTokenData × WebSocketServer
    → Outcome GatewayError Connection × WebSocketServer
unfolding insert_session hello_motd
accept build uuid handshaken now time (none, s) =
    (err (krist (web_socket invalid_websocket_token)), s)
accept build uuid false now time (some d, s) = (err handshake, s)
accept build uuid true now time (some d, s) =
    (ok (send (Frame.text (hello build time)) (opened uuid now)), insert_session uuid false d s)

-- The route up to the spawning of the tasks, given the parsed token and the printed time.
unfoldable pub gateway :
    BuildInfo
    → Option ℕ
    → Bool
    → ℕ
    → String
    → WebSocketServer
    → Outcome GatewayError Connection × WebSocketServer
unfolding use_token accept
gateway build none handshaken now time s = (err (krist (web_socket invalid_websocket_token)), s)
gateway build (some uuid) handshaken now time s =
    accept build uuid handshaken now time (use_token uuid s)

-- `cleanup_session`: the first of the tasks to get there removes the session.
abbrev pub clean : Connection → WebSocketServer → Connection × WebSocketServer
unfolding cleanup_session
clean c s =
    if c.session_closed
    then (c, s)
    else (record c { session_closed = true }, cleanup_session c.uuid s)

abbrev pub stop_heartbeat : Connection → Connection
stop_heartbeat c = record c { heartbeat = false }

abbrev pub stop_reading : Connection → Connection
stop_reading c = record c { reading = false; heartbeat = false }

abbrev pub hang_up : Connection → Connection
hang_up c = record c { gone = true }

-- One round of the heartbeat's loop, at an instant that prints as `time`.
unfoldable pub tick : ℕ → String → Connection → WebSocketServer → Connection × WebSocketServer
unfolding cleanup_session
tick now time c s =
    if not c.heartbeat
    then (c, s)
    else if c.session_closed
    then (stop_heartbeat c, s)
    else if ltb client_timeout (now - c.alive)
    then (let (c', s') = clean c s in (stop_heartbeat c', s'))
    else if c.gone
    then (let (c', s') = clean c s in (stop_heartbeat c', s'))
    else (send (Frame.text (keepalive time)) (send Frame.ping c), s)

-- What the reader does with the answer to a message; a panic ends its task, and the heartbeat goes on.
abbrev pub reply_with : Outcome KromerError WebSocketMessage → Connection → Connection
reply_with (ok m) c = send (Frame.text m) c
reply_with (err _) c = c
reply_with panic c = record c { reading = false }

module _ (x : Externals) (parse_json : String → Option WebSocketMessage) where
  -- One round of the reader's loop.
  unfoldable pub receive : ℕ → AggregatedMessage → Connection → World → Connection × World
  unfolding cleanup_session process_text_msg
  receive now m c w = if not c.reading then (c, w) else elim m [
    | AggregatedMessage.ping ↦ if c.gone then (stop_reading c, w) else (send Frame.pong c, w)
    | AggregatedMessage.pong ↦ (record c { alive = now }, w)
    | AggregatedMessage.binary ↦ (c, w)
    | AggregatedMessage.close ↦
        (stop_reading (hang_up c), record w { server = cleanup_session c.uuid w.server })
    | AggregatedMessage.text string ↦
        let (r, w') = process_text_msg x parse_json c.uuid string w in
        if ltb 512 (count string) then (send Frame.too_long c, w) else (reply_with r c, w')
  ]

-- The end of the stream, or an error of it.
unfoldable pub stream_end : Connection → WebSocketServer → Connection × WebSocketServer
unfolding cleanup_session
stream_end c s =
    if not c.reading then (c, s) else (let (c', s') = clean (hang_up c) s in (stop_reading c', s'))
