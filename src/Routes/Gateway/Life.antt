-- ===== src/Routes/Gateway/Life.antt =====
-- A connection of src/routes/krist/ws.rs from the request to its end.
use mathlib.Core.Path.{subst}
use kromer.Prelude.{
  ℕ, ◌-◌, ◌<◌, ◌≡◌, refl, String, Option, none, some, List, [], ◌∷◌, All, Bool, true, false, not,
  ltb, arith,
}
use Prim.Native.String.{count}
use kromer.Database.Externals.{Externals}
use kromer.Exec.{World, Outcome, ok, err, panic}
use kromer.Models.Messages.{WebSocketMessage}
use kromer.Models.Motd.{BuildInfo}
use kromer.Routes.Gateway.{
  accept, clean, GatewayError, stop_reading, client_timeout, Connection, AggregatedMessage, gateway,
  tick, receive, stream_end, hang_up,
}
use kromer.Routes.Gateway.Ends.{PongReaches, Clear, step-Clear, process_text_msg-Stable}
use kromer.Routes.Gateway.Events.{Event, step, run}
use kromer.Routes.Gateway.Removal.{
  Absent, Absent-Stable, Apart, Tidy, choose, tick-Absent, happen-Absent,
}
use kromer.WebSockets.{WebSocketServer, WebSocketTokenData}
use kromer.WebSockets.Server.{get, cleanup_session, use_token}

-- A connection whose tasks have just been spawned.
abbrev Fresh : ℕ → Connection → Type 0
Fresh uuid c = (c.uuid ≡ uuid) × ((c.session_closed ≡ false) × (c.heartbeat ≡ true))

abbrev Opens : ℕ → Outcome GatewayError Connection × WebSocketServer → Type 0
Opens uuid (ok c, s) = Fresh uuid c
Opens uuid (err e, s) = Unit
Opens uuid (panic, s) = Unit

accept-Opens :
    (build : BuildInfo) (uuid : ℕ) (handshaken : Bool) (now : ℕ) (time : String)
    (r : Option WebSocketTokenData × WebSocketServer)
    → Opens uuid (accept build uuid handshaken now time r)
unfolding accept
accept-Opens build uuid handshaken now time (none, s) = tt
accept-Opens build uuid false now time (some d, s) = tt
accept-Opens build uuid true now time (some d, s) = (refl, (refl, refl))

-- The route opened the connection and left the server so.
abbrev pub Connects :
    BuildInfo → ℕ → ℕ → String → WebSocketServer → Connection → WebSocketServer → Type 0
Connects build uuid now time s c s' = gateway build (some uuid) true now time s ≡ (ok c, s')

gateway-Tidy :
    (build : BuildInfo) (uuid now : ℕ) (time : String) (s s' : WebSocketServer) (c : Connection)
    → Connects build uuid now time s c s'
    → Tidy uuid c s'
unfolding gateway
gateway-Tidy build uuid now time s s' c e =
    let (mine, (unmarked, beating)) =
      subst (Opens uuid) e (accept-Opens build uuid true now time (use_token uuid s)) in
    record { mine = mine; closed = λ marked. absurd (cc); over = λ stopped. absurd (cc) }

module _ (x : Externals) (parse_json : String → Option WebSocketMessage) where
  -- Every ping is answered while the peer is there.
  abbrev pub PongsReach : List Event → Connection × World → Type 0
  PongsReach [] st = Unit
  PongsReach (e ∷ es) st = PongReaches e st.0 × PongsReach es (step x parse_json e st)

  run-Clear :
      (uuid : ℕ) (es : List Event) (st : Connection × World)
      → All (Apart uuid) es
      → PongsReach es st
      → Clear x parse_json uuid st
      → Clear x parse_json uuid (run x parse_json es st)
  unfolding run
  run-Clear uuid [] st a reach h = h
  run-Clear uuid (e ∷ es) (c, w) a reach h =
      run-Clear uuid es (step x parse_json e (c, w)) a.1 reach.1
        (step-Clear x parse_json uuid e c w a.0 reach.0 h)

  -- A session that is gone stays gone, whatever comes.
  abbrev Without : ℕ → Connection × World → Type 0
  Without uuid (c, w) = Absent uuid w.server

  module _ (uuid : ℕ) (c : Connection) where
    abbrev Gone : Connection × WebSocketServer → Type 0
    Gone p = Absent uuid p.1

    clean-Without : (c' : Connection) (s : WebSocketServer) → Absent uuid s → Gone (clean c' s)
    unfolding clean
    clean-Without c' s h =
        choose Gone c'.session_closed _ _ (λ marked. h)
          λ unmarked. (Absent-Stable uuid).cleaned c'.uuid s h

    tick-Without :
        (now : ℕ) (time : String) (s : WebSocketServer) → Absent uuid s → Gone (tick now time c s)
    unfolding tick
    tick-Without now time s h =
        choose Gone (not c.heartbeat) _ _ (λ stopped. h)
          λ beating.
            choose Gone c.session_closed _ _ (λ marked. h)
              λ unmarked.
                choose Gone (ltb client_timeout (now - c.alive)) _ _ (λ late. clean-Without c s h)
                  λ alive. choose Gone c.gone _ _ (λ away. clean-Without c s h) λ there. h

    stream_end-Without : (s : WebSocketServer) → Absent uuid s → Gone (stream_end c s)
    unfolding stream_end
    stream_end-Without s h =
        choose Gone (not c.reading) _ _ (λ stopped. h) λ reads. clean-Without (hang_up c) s h

    receive-Without :
        (now : ℕ) (m : AggregatedMessage) (w : World)
        → Absent uuid w.server
        → Without uuid (receive x parse_json now m c w)
    unfolding receive cleanup_session
    receive-Without now AggregatedMessage.ping w h =
        choose (Without uuid) (not c.reading) _ _ (λ stopped. h)
          λ reads. choose (Without uuid) c.gone _ _ (λ away. h) λ there. h
    receive-Without now AggregatedMessage.pong w h =
        choose (Without uuid) (not c.reading) _ _ (λ stopped. h) λ reads. h
    receive-Without now AggregatedMessage.binary w h =
        choose (Without uuid) (not c.reading) _ _ (λ stopped. h) λ reads. h
    receive-Without now AggregatedMessage.close w h =
        choose (Without uuid) (not c.reading) _ _ (λ stopped. h)
          λ reads. (Absent-Stable uuid).cleaned c.uuid w.server h
    receive-Without now (AggregatedMessage.text string) w h =
        choose (Without uuid) (not c.reading) _ _ (λ stopped. h)
          λ reads.
            choose (Without uuid) (ltb 512 (count string)) _ _ (λ long. h)
              λ short. process_text_msg-Stable x parse_json (Absent-Stable uuid) c.uuid string w h

  step-Without :
      (uuid : ℕ) (e : Event) (c : Connection) (w : World)
      → Apart uuid e
      → Absent uuid w.server
      → Without uuid (step x parse_json e (c, w))
  unfolding step
  step-Without uuid (Event.beat now time) c w a h = tick-Without uuid c now time w.server h
  step-Without uuid (Event.received now m) c w a h = receive-Without uuid c now m w h
  step-Without uuid Event.ended c w a h = stream_end-Without uuid c w.server h
  step-Without uuid Event.lost c w a h = h
  step-Without uuid (Event.elsewhere e) c w a h = happen-Absent x uuid e w a h

  run-Without :
      (uuid : ℕ) (es : List Event) (st : Connection × World)
      → All (Apart uuid) es
      → Without uuid st
      → Without uuid (run x parse_json es st)
  unfolding run
  run-Without uuid [] st a h = h
  run-Without uuid (e ∷ es) (c, w) a h =
      run-Without uuid es (step x parse_json e (c, w)) a.1 (step-Without uuid e c w a.0 h)

  -- A connection that the route opened has no session left once its heartbeat is over, whatever its client
  -- sends, and whatever the rest of the server does between the rounds of its tasks, if no other connection
  -- takes its identifier and no pong fails for the peer's being gone.
  pub run-ends_clean :
      (build : BuildInfo) (uuid now : ℕ) (time : String) (w : World) (c : Connection)
      (s : WebSocketServer)
      → Connects build uuid now time w.server c s
      → (es : List Event) → All (Apart uuid) es
      → PongsReach es (c, record w { server = s })
      → (run x parse_json es (c, record w { server = s })).0.heartbeat ≡ false
      → get uuid (run x parse_json es (c, record w { server = s })).1.server.sessions ≡ none
  run-ends_clean build uuid now time w c s e es apart reach over =
      let start = gateway-Tidy build uuid now time w.server s c e in
      ((run-Clear uuid es (c, record w { server = s }) apart reach start).over over).absent

  -- If a connection that the route opened is silent for longer than the timeout, the next round of its
  -- heartbeat leaves no session, and none comes back, under the same conditions on what happened before; what
  -- comes after is only not to take its identifier.
  pub run-times_out :
      (build : BuildInfo) (uuid now : ℕ) (time : String) (w : World) (c : Connection)
      (s : WebSocketServer)
      → Connects build uuid now time w.server c s
      → (es later : List Event) → All (Apart uuid) es
      → All (Apart uuid) later
      → PongsReach es (c, record w { server = s })
      → (now' : ℕ) (time' : String)
      → client_timeout < now' - (run x parse_json es (c, record w { server = s })).0.alive
      → get uuid
          (run x parse_json later (
            step x parse_json
              (Event.beat now' time')
              (run x parse_json es (c, record w { server = s })))).1.server.sessions
        ≡ none
  unfolding step
  run-times_out build uuid now time w c s e es later apart apart' reach now' time' late =
      let (c', w') = run x parse_json es (c, record w { server = s }) in
      let start = gateway-Tidy build uuid now time w.server s c e in
      let tidy = run-Clear uuid es (c, record w { server = s }) apart reach start in
      (run-Without uuid later (step x parse_json (Event.beat now' time') (c', w')) apart'
        (tick-Absent uuid now' time' c' w'.server tidy late)).absent

  -- An event of the connection itself.
  abbrev pub Own : Event → Type 0
  Own (Event.elsewhere e) = ⊥
  Own _ = Unit

  -- Both tasks are over, and the server is as it was.
  pub record Stopped (s : WebSocketServer) (st : Connection × World) : Type 0 where
    pub beating : st.0.heartbeat ≡ false
    pub reads : st.0.reading ≡ false
    pub server : st.1.server ≡ s

  abbrev Same : List Event → World → Connection × World → Type 0
  Same es w st = Stopped w.server (run x parse_json es st)

  run-Stopped :
      (es : List Event) (c : Connection) (w : World)
      → All Own es
      → c.reading ≡ false
      → c.heartbeat ≡ false
      → Stopped w.server (run x parse_json es (c, w))
  unfolding run step tick receive stream_end
  run-Stopped [] c w own r h = record { beating = h; reads = r; server = refl }
  run-Stopped (Event.beat now time ∷ es) c w own r h =
      choose (λ (p : Connection × WebSocketServer). Same es w (p.0, record w { server = p.1 }))
        (not c.heartbeat) _ _ (λ stopped. run-Stopped es c w own.1 r h)
        λ beating. absurd (ground (arith, h, beating))
  run-Stopped (Event.received now m ∷ es) c w own r h =
      choose (Same es w) (not c.reading) _ _ (λ stopped. run-Stopped es c w own.1 r h)
        λ reads. absurd (ground (arith, r, reads))
  run-Stopped (Event.ended ∷ es) c w own r h =
      choose (λ (p : Connection × WebSocketServer). Same es w (p.0, record w { server = p.1 }))
        (not c.reading) _ _ (λ stopped. run-Stopped es c w own.1 r h)
        λ reads. absurd (ground (arith, r, reads))
  run-Stopped (Event.lost ∷ es) c w own r h = run-Stopped es (hang_up c) w own.1 r h
  run-Stopped (Event.elsewhere e ∷ es) c w own r h = elim own.0 [ ]

  -- A pong that fails, because the peer is gone, stops both tasks of a connection and leaves the server as
  -- it is, with the session; and so it stays whatever comes to the connection itself afterwards.
  pub run-failed_pong :
      (es : List Event) (c : Connection) (w : World) (now : ℕ)
      → All Own es
      → c.reading ≡ true
      → c.gone ≡ true
      → Stopped w.server (run x parse_json (Event.received now AggregatedMessage.ping ∷ es) (c, w))
  unfolding run step receive
  run-failed_pong es c w now own r g =
      choose (Same es w) (not c.reading) _ _ (λ stopped. absurd (ground (arith, r, stopped)))
        λ reads.
          choose (Same es w) c.gone _ _ (λ away. run-Stopped es (stop_reading c) w own refl refl)
            λ there. absurd (ground (arith, g, there))
