-- ===== src/Examples/Gateway.antt =====
-- The theorems of the gateway at a connection of the small server.
use kromer.Prelude.{◌≡◌, refl, String, Option, none, List, [], ◌∷◌, false, arith}
use kromer.Examples.{simple, server, world}
use kromer.Exec.{World}
use kromer.Models.Messages.{WebSocketMessage}
use kromer.Models.Motd.{BuildInfo}
use kromer.Routes.Gateway.{
  Frame, send, hello, opened, hang_up, accept, Connection, AggregatedMessage, gateway, receive,
  stream_end,
}
use kromer.Routes.Gateway.Events.{Elsewhere, Event, step, run, happen}
use kromer.Routes.Gateway.Life.{Stopped, run-ends_clean, run-times_out, run-failed_pong}
use kromer.WebSockets.{WebSocketServer, WebSocketTokenData}
use kromer.WebSockets.Server.{
  get, use_token, insert_session, session_of, without, insert_new, cleanup_session,
}

abbrev built : BuildInfo
built = record { pkg_name = "kromer"; pkg_version = "0.2.0"; git_commit_hash = none }

abbrev visitor : WebSocketTokenData
visitor = record { address = "guest"; private_key = none; computer_id = none }

-- One token is out.
abbrev awaited : World
awaited = record world { server = record server { pending_tokens = (5, visitor) ∷ [] } }

abbrev connection : Connection
connection = send (Frame.text (hello built "")) (opened 5 0)

abbrev connected : WebSocketServer
connected = record server { sessions = (5, session_of visitor false) ∷ server.sessions }

abbrev no_json : String → Option WebSocketMessage
no_json text = none

-- The client answers once, another connection goes, and the stream ends.
abbrev short_visit : List Event
short_visit =
    Event.received 3000 AggregatedMessage.pong
    ∷ Event.elsewhere (Elsewhere.disconnect 1)
    ∷ Event.ended
    ∷ []

run-ends_clean_example :
    get 5
      (run simple no_json short_visit
        (connection, record awaited { server = connected })).1.server.sessions
    ≡ none
unfolding gateway accept use_token insert_session get without insert_new run step receive stream_end
    cleanup_session happen
run-ends_clean_example =
    run-ends_clean simple no_json built 5 0 "" awaited connection connected refl short_visit
      (tt, (tt, (tt, tt))) (tt, (tt, (tt, tt))) refl

-- After the answer the client says nothing for eleven seconds.
run-times_out_example :
    get 5
      (run simple no_json (Event.lost ∷ []) (
        step simple no_json (Event.beat 14000 "") (
          run simple no_json
            (Event.received 3000 AggregatedMessage.pong ∷ [])
            (connection, record awaited { server = connected })))).1.server.sessions
    ≡ none
unfolding gateway accept use_token insert_session get without insert_new run step receive
run-times_out_example =
    run-times_out simple no_json built 5 0 "" awaited connection connected refl
      (Event.received 3000 AggregatedMessage.pong ∷ []) (Event.lost ∷ []) (tt, tt) (tt, tt) (tt, tt)
      14000 "" (omega arith)

run-failed_pong_example : Stopped simple no_json connected (
    run simple no_json
      (Event.received 3000 AggregatedMessage.ping ∷ Event.beat 5000 "" ∷ Event.beat 20000 "" ∷ [])
      (hang_up connection, record awaited { server = connected }))
run-failed_pong_example =
    run-failed_pong simple no_json (Event.beat 5000 "" ∷ Event.beat 20000 "" ∷ [])
      (hang_up connection) (record awaited { server = connected }) 3000 (tt, (tt, tt)) refl refl
