-- ===== src/Routes/Sockets.antt =====
-- The routes that show the websocket sessions, src/routes/internal/ws.rs and src/routes/v1/ws.rs, and the
-- answer to unknown paths, src/routes/not_found.rs.
use kromer.Prelude.{ℕ, String, Option, List, length}
use kromer.Errors.{KromerError, internal}
use kromer.Exec.{Exec, ◌>>=◌, ok_or, gets, throw}
use kromer.WebSockets.{WebSocketSessionData}
use kromer.WebSockets.Server.{get}

-- `parse_uuid` is `str::parse::<Uuid>`.
unfoldable pub get_session : (String → Option ℕ) → String → Exec KromerError WebSocketSessionData
unfolding get
get_session parse_uuid session = do
  target_uuid ← ok_or (parse_uuid session) (internal "Failed to parse UUID")
  session_ref ← gets (λ w. get target_uuid w.server.sessions)
  ok_or session_ref (internal "Session not found")

unfoldable pub get_sessions : Exec KromerError (List (ℕ × WebSocketSessionData))
get_sessions = gets (λ w. w.server.sessions)

-- `SessionCountResponse` carries the count alone.
unfoldable pub ws_session_get_count : Exec KromerError ℕ
ws_session_get_count = gets (λ w. length w.server.sessions)

unfoldable pub not_found : {A : Type 0} → Exec KromerError A
not_found = throw KromerError.not_found
