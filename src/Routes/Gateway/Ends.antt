-- ===== src/Routes/Gateway/Ends.antt =====
-- How a connection of src/routes/krist/ws.rs ends, and what is left of its session.
use kromer.Prelude.{ℕ, ◌≡◌, String, Option, none, some, false, not, ◌&&◌, ltb, arith}
use Prim.Native.String.{count}
use kromer.Database.Externals.{Externals}
use kromer.Errors.{KromerError}
use kromer.Exec.{World, Outcome, ok, err, panic, throw}
use kromer.Models.Messages.{WebSocketMessage}
use kromer.Routes.Gateway.{
  Frame, stop_reading, reply_with, Connection, AggregatedMessage, receive, hang_up,
}
use kromer.Routes.Gateway.Events.{Event, step}
use kromer.Routes.Gateway.Removal.{
  Absent, Absent-Stable, Apart, Tidy, Absent-Tidy, choose, send-Tidy, tick-Tidy, stream_end-Tidy,
  happen-Absent,
}
use kromer.Validation.{trim}
use kromer.WebSockets.{WebSocketServer}
use kromer.WebSockets.Handler.{process_text_msg, dispatch_parsed, dispatch}
use kromer.WebSockets.Server.{cleanup_session}
use kromer.WebSockets.Sessions.{get-without}
use kromer.WebSockets.Stable.{Stable, Serving}
use kromer.WebSockets.Stable.Messages.{dispatch-Leaves}
use kromer.Exec.Ensures.{After}

-- No ping is answered after the peer is gone.
abbrev pub PongReaches : Event → Connection → Type 0
PongReaches (Event.received now AggregatedMessage.ping) c = (c.reading && c.gone) ≡ false
PongReaches _ c = Unit

module _ (x : Externals) (parse_json : String → Option WebSocketMessage) where
  after_any :
      {E A : Type 0} (S : WebSocketServer → Type 0) (r : Outcome E A × World)
      → After (λ _. Serving S) (Serving S) r
      → S r.1.server
  after_any S (ok a, w) h = h.holds
  after_any S (err e, w) h = h.holds
  after_any S (panic, w) h = h.holds

  pub process_text_msg-Stable :
      {S : WebSocketServer → Type 0} (stable : Stable S) (uuid : ℕ) (text : String) (w : World)
      → S w.server
      → S (process_text_msg x parse_json uuid text w).1.server
  unfolding process_text_msg throw
  process_text_msg-Stable {S} stable uuid text w h = parsed (parse_json (trim text))
    where
      parsed : (o : Option WebSocketMessage) → S (dispatch_parsed x uuid o w).1.server
      parsed none = h
      parsed (some m) =
          after_any S (dispatch x uuid m.id m.inner w)
            ((dispatch-Leaves stable x uuid m.id m.inner).at w (record { holds = h }))

  module _ (uuid : ℕ) where
    -- A connection and the world around it.
    abbrev pub Clear : Connection × World → Type 0
    Clear (c, w) = Tidy uuid c w.server

    reply-Tidy :
        (r : Outcome KromerError WebSocketMessage) (c : Connection) (s : WebSocketServer)
        → Tidy uuid c s
        → Tidy uuid (reply_with r c) s
    reply-Tidy (ok m) c s h = send-Tidy uuid (Frame.text m) c s h
    reply-Tidy (err e) c s h = h
    reply-Tidy panic c s h = record { mine = h.mine; closed = h.closed; over = h.over }

    receive-Clear :
        (now : ℕ) (m : AggregatedMessage) (c : Connection) (w : World)
        → PongReaches (Event.received now m) c
        → Tidy uuid c w.server
        → Clear (receive x parse_json now m c w)
    unfolding receive cleanup_session
    receive-Clear now AggregatedMessage.ping c w reach h =
        choose Clear (not c.reading) _ _ (λ stopped. h)
          λ reads.
            choose Clear c.gone _ _ (λ away. absurd (ground (arith, reads, away, reach)))
              λ there. send-Tidy uuid Frame.pong c w.server h
    receive-Clear now AggregatedMessage.pong c w reach h =
        choose Clear (not c.reading) _ _ (λ stopped. h)
          λ reads. record { mine = h.mine; closed = h.closed; over = h.over }
    receive-Clear now AggregatedMessage.binary c w reach h =
        choose Clear (not c.reading) _ _ (λ stopped. h) λ reads. h
    receive-Clear now AggregatedMessage.close c w reach h =
        choose Clear (not c.reading) _ _ (λ stopped. h)
          λ reads.
            Absent-Tidy uuid (stop_reading (hang_up c)) (cleanup_session c.uuid w.server) h.mine
              (record { absent = rw h.mine (get-without uuid w.server.sessions) })
    receive-Clear now (AggregatedMessage.text string) c w reach h =
        let (r, w') = process_text_msg x parse_json c.uuid string w in
        let stays : Absent uuid w.server → Absent uuid w'.server =
          λ a. process_text_msg-Stable (Absent-Stable uuid) c.uuid string w a in
        choose Clear (not c.reading) _ _ (λ stopped. h)
          λ reads.
            choose Clear (ltb 512 (count string)) _ _
              (λ long. send-Tidy uuid Frame.too_long c w.server h)
              λ short. reply-Tidy r c w'.server (record {
                mine = h.mine;
                closed = λ e. stays (h.closed e);
                over = λ e. stays (h.over e);
              })

    pub step-Clear :
        (e : Event) (c : Connection) (w : World)
        → Apart uuid e
        → PongReaches e c
        → Tidy uuid c w.server
        → Clear (step x parse_json e (c, w))
    unfolding step
    step-Clear (Event.beat now time) c w a reach h = tick-Tidy uuid now time c w.server h
    step-Clear (Event.received now m) c w a reach h = receive-Clear now m c w reach h
    step-Clear Event.ended c w a reach h = stream_end-Tidy uuid c w.server h
    step-Clear Event.lost c w a reach h = record { mine = h.mine; closed = h.closed; over = h.over }
    step-Clear (Event.elsewhere e) c w a reach h = record {
      mine = h.mine;
      closed = λ k. happen-Absent x uuid e w a (h.closed k);
      over = λ k. happen-Absent x uuid e w a (h.over k);
    }
