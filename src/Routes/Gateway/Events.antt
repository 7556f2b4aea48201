-- ===== src/Routes/Gateway/Events.antt =====
-- The life of a connection of src/routes/krist/ws.rs: the rounds of its two tasks and what the rest of
-- the server does between them, as a sequence of events.
use kromer.Prelude.{ℕ, String, Option, none, some, List, [], ◌∷◌, Bool}
use kromer.Database.Externals.{Externals}
use kromer.Exec.{World}
use kromer.Models.Messages.{WebSocketMessage}
use kromer.Routes.Gateway.{Connection, AggregatedMessage, tick, receive, stream_end, hang_up}
use kromer.Routes.Serving.{Request, serve}
use kromer.WebSockets.{WebSocketTokenData, WebSocketServer}
use kromer.WebSockets.Server.{
  insert_session, cleanup_session, obtain_token, use_token, expire_token,
}

-- What other tasks do to the server: requests and messages of any session, other connections that come and
-- go, and tokens.
pub data Elsewhere : Type 0 where
  request : Request → Elsewhere
  connect : ℕ → Bool → WebSocketTokenData → Elsewhere
  disconnect : ℕ → Elsewhere
  issue : List ℕ → WebSocketTokenData → Elsewhere
  redeem expire : ℕ → Elsewhere

pub data Event : Type 0 where
  beat : ℕ → String → Event
  received : ℕ → AggregatedMessage → Event
  ended lost : Event
  elsewhere : Elsewhere → Event

abbrev pub issued : Option (ℕ × WebSocketServer) → WebSocketServer → WebSocketServer
issued none s = s
issued (some (uuid, s')) s = s'

abbrev on_server : (WebSocketServer → WebSocketServer) → World → World
on_server f w = record w { server = f w.server }

module _ (x : Externals) where
  unfoldable pub happen : Elsewhere → World → World
  unfolding insert_session cleanup_session obtain_token use_token expire_token serve
  happen (request r) w = serve x r w
  happen (connect uuid closed d) w = on_server (insert_session uuid closed d) w
  happen (disconnect uuid) w = on_server (cleanup_session uuid) w
  happen (issue draws d) w = on_server (λ s. issued (obtain_token draws d s) s) w
  happen (redeem uuid) w = on_server (λ s. (use_token uuid s).1) w
  happen (expire uuid) w = on_server (expire_token uuid) w

module _ (x : Externals) (parse_json : String → Option WebSocketMessage) where
  unfoldable pub step : Event → Connection × World → Connection × World
  unfolding tick receive stream_end happen
  step (beat now time) (c, w) =
      let (c', s) = tick now time c w.server in (c', record w { server = s })
  step (received now m) (c, w) = receive x parse_json now m c w
  step ended (c, w) = let (c', s) = stream_end c w.server in (c', record w { server = s })
  step lost (c, w) = (hang_up c, w)
  step (elsewhere e) (c, w) = (c, happen x e w)

  unfoldable pub run : List Event → Connection × World → Connection × World
  unfolding step
  run [] st = st
  run (e ∷ es) st = run es (step e st)
