-- ===== src/Routes/Gateway/Removal.antt =====
-- Which rounds of the tasks of src/routes/krist/ws.rs leave no session behind.
use kromer.Prelude.{
  ℕ, ◌-◌, ◌<◌, ◌≡◌, ◌≢◌, refl, String, Option, none, some, List, [], ◌∷◌, Bool, true, false, not,
  ltb, arith, if◌then◌else◌,
}
use kromer.Database.Externals.{Externals}
use kromer.Exec.{World}
use kromer.Routes.Gateway.{
  Frame, send, clean, stop_heartbeat, stop_reading, client_timeout, Connection, tick, stream_end,
  hang_up,
}
use kromer.Routes.Gateway.Events.{Elsewhere, Event, issued, happen}
use kromer.WebSockets.{WebSocketServer, WebSocketSessionData, WebSocketTokenData}
use kromer.Routes.Stable.{serve-Stable}
use kromer.WebSockets.Server.{
  get, without, insert_new, update_at, session_of, cleanup_session, insert_session, use_token,
  expire_token, obtain_token,
}
use kromer.WebSockets.Sessions.{get-without}
use kromer.WebSockets.Stable.{Stable}

-- No session has the identifier.
pub record Absent (uuid : ℕ) (s : WebSocketServer) : Type 0 where
  pub absent : get uuid s.sessions ≡ none

module _ (uuid : ℕ) where
  absent-without :
      (k : ℕ) (m : List (ℕ × WebSocketSessionData))
      → get uuid m ≡ none
      → get uuid (without k m) ≡ none
  unfolding get without
  absent-without k [] h = refl
  absent-without k ((j, v) ∷ m) h = ground (arith, h, absent-without k m)

  absent-update_at :
      (k : ℕ) (f : WebSocketSessionData → WebSocketSessionData)
      (m : List (ℕ × WebSocketSessionData))
      → get uuid m ≡ none
      → get uuid (update_at k f m) ≡ none
  unfolding get update_at
  absent-update_at k f [] h = refl
  absent-update_at k f ((j, v) ∷ m) h = ground (arith, h, absent-update_at k f m)

  pub Absent-Stable : Stable (Absent uuid)
  unfolding cleanup_session
  Absent-Stable = record {
    updated = λ k f s h. record { absent = absent-update_at k f s.sessions h.absent };
    cleaned = λ k s h. record { absent = absent-without k s.sessions h.absent };
    sent = λ l s h. record { absent = h.absent };
    pended = λ l s h. record { absent = h.absent };
  }

-- Another connection does not take the identifier.
abbrev pub Apart : ℕ → Event → Type 0
Apart uuid (Event.elsewhere (Elsewhere.connect k closed d)) = k ≢ uuid
Apart uuid _ = Unit

module _ (x : Externals) (uuid : ℕ) where
  absent-insert_new :
      (k : ℕ) (v : WebSocketSessionData) (m : List (ℕ × WebSocketSessionData))
      → k ≢ uuid
      → get uuid m ≡ none
      → get uuid (insert_new k v m) ≡ none
  unfolding get insert_new
  absent-insert_new k v m ne h = added (get k m)
    where
      added :
          (o : Option WebSocketSessionData)
          → get uuid (elim o [ none ↦ (k, v) ∷ m | some _ ↦ m ]) ≡ none
      added none = ground (arith, ne, h)
      added (some _) = h

  issued-Absent :
      (draws : List ℕ) (d : WebSocketTokenData) (s : WebSocketServer)
      → Absent uuid s
      → Absent uuid (issued (obtain_token draws d s) s)
  unfolding obtain_token
  issued-Absent [] d s h = h
  issued-Absent (k ∷ draws) d s h = drawn (issued-Absent draws d s h) (get k s.pending_tokens)
    where
      drawn :
          Absent uuid (issued (obtain_token draws d s) s)
          → (o : Option WebSocketTokenData)
          → Absent uuid (
              issued
                (elim o [
                  | none ↦ some (k, record s { pending_tokens = insert_new k d s.pending_tokens })
                  | some _ ↦ obtain_token draws d s
                ])
                s)
      drawn ih none = record { absent = h.absent }
      drawn ih (some _) = ih

  pub happen-Absent :
      (e : Elsewhere) (w : World)
      → Apart uuid (Event.elsewhere e)
      → Absent uuid w.server
      → Absent uuid (happen x e w).server
  unfolding happen cleanup_session insert_session use_token expire_token
  happen-Absent (Elsewhere.request r) w a h = serve-Stable (Absent-Stable uuid) x r w h
  happen-Absent (Elsewhere.connect k closed d) w a h = record {
    absent = absent-insert_new k (session_of d closed) w.server.sessions a h.absent;
  }
  happen-Absent (Elsewhere.disconnect k) w a h = (Absent-Stable uuid).cleaned k w.server h
  happen-Absent (Elsewhere.issue draws d) w a h = issued-Absent draws d w.server h
  happen-Absent (Elsewhere.redeem k) w a h = record { absent = h.absent }
  happen-Absent (Elsewhere.expire k) w a h = record { absent = h.absent }

-- Where a task has marked the connection's session as closed, or the heartbeat is over, there is no
-- session.
pub record Tidy (uuid : ℕ) (c : Connection) (s : WebSocketServer) : Type 0 where
  pub mine : c.uuid ≡ uuid
  pub closed : c.session_closed ≡ true → Absent uuid s
  pub over : c.heartbeat ≡ false → Absent uuid s

pub choose :
    {A : Type 0} (P : A → Type 0) (b : Bool) (a a' : A)
    → (b ≡ true → P a)
    → (b ≡ false → P a')
    → P (if b then a else a')
choose P true a a' f g = f refl
choose P false a a' f g = g refl

module _ (uuid : ℕ) where
  pub Absent-Tidy :
      (c : Connection) (s : WebSocketServer) → c.uuid ≡ uuid → Absent uuid s → Tidy uuid c s
  Absent-Tidy c s e h = record { mine = e; closed = λ _. h; over = λ _. h }

  -- A pair of a connection and the server.
  abbrev pub Both : Connection × WebSocketServer → Type 0
  Both (c, s) = Tidy uuid c s

  abbrev Removed : Connection × WebSocketServer → Type 0
  Removed (c, s) = (c.uuid ≡ uuid) × Absent uuid s

  clean-Removed : (c : Connection) (s : WebSocketServer) → Tidy uuid c s → Removed (clean c s)
  unfolding cleanup_session
  clean-Removed c s h =
      choose Removed c.session_closed _ _ (λ marked. (h.mine, h.closed marked))
        λ unmarked. (h.mine, record { absent = rw h.mine (get-without uuid s.sessions) })

  pub send-Tidy :
      (f : Frame) (c : Connection) (s : WebSocketServer) → Tidy uuid c s → Tidy uuid (send f c) s
  send-Tidy f c s h =
      choose (λ c'. Tidy uuid c' s) c.gone c _ (λ away. h)
        λ there. record { mine = h.mine; closed = h.closed; over = h.over }

  pub tick-Tidy :
      (now : ℕ) (time : String) (c : Connection) (s : WebSocketServer)
      → Tidy uuid c s
      → Both (tick now time c s)
  unfolding tick
  tick-Tidy now time c s h =
      let removed = clean-Removed c s h in
      let gives_up : Both (stop_heartbeat (clean c s).0, (clean c s).1) =
        Absent-Tidy (stop_heartbeat (clean c s).0) (clean c s).1 removed.0 removed.1 in
      choose Both (not c.heartbeat) _ _ (λ stopped. h)
        λ beating.
          choose Both c.session_closed _ _
            (λ marked. Absent-Tidy (stop_heartbeat c) s h.mine (h.closed marked))
            λ unmarked.
              choose Both (ltb client_timeout (now - c.alive)) _ _ (λ late. gives_up)
                λ alive.
                  choose Both c.gone _ _ (λ away. gives_up)
                    λ there. send-Tidy _ _ s (send-Tidy Frame.ping c s h)

  pub stream_end-Tidy :
      (c : Connection) (s : WebSocketServer) → Tidy uuid c s → Both (stream_end c s)
  unfolding stream_end
  stream_end-Tidy c s h =
      let removed =
        clean-Removed (hang_up c) s (record { mine = h.mine; closed = h.closed; over = h.over }) in
      choose Both (not c.reading) _ _ (λ stopped. h)
        λ reads.
          Absent-Tidy (stop_reading (clean (hang_up c) s).0) (clean (hang_up c) s).1 removed.0
            removed.1

  abbrev Gone : Connection × WebSocketServer → Type 0
  Gone p = Absent uuid p.1

  -- A heartbeat that finds the client silent for too long removes its session.
  pub tick-Absent :
      (now : ℕ) (time : String) (c : Connection) (s : WebSocketServer)
      → Tidy uuid c s
      → client_timeout < now - c.alive
      → Absent uuid (tick now time c s).1
  unfolding tick
  tick-Absent now time c s h late =
      choose Gone (not c.heartbeat) _ _ (λ stopped. h.over (ground (arith, stopped)))
        λ beating.
          choose Gone c.session_closed _ _ (λ marked. h.closed marked)
            λ unmarked.
              choose Gone (ltb client_timeout (now - c.alive)) _ _ (λ _. (clean-Removed c s h).1)
                λ early. absurd (ground (arith, early, late))
