-- ===== src/Routes/Logins.antt =====
-- `POST /login` of src/routes/krist/misc.rs and `POST /ws/start` of src/routes/krist/ws.rs, which make a
-- wallet for a key that is new: the committed tables, and that they do not panic.
use kromer.Prelude.{ℕ, ℤ, String, Option, none, some, List}
use kromer.Database.{Tables}
use kromer.Database.Closed.{Rows}
use kromer.Database.Externals.{Externals}
use kromer.Database.Keeps.{Safe}
use kromer.Database.Sound.{handler_rules, verify_address-Sound}
use kromer.Database.Stays.{Stays}
use kromer.Exec.{World}
use kromer.Exec.Ensures.{After, Ensures-ok_or}
use kromer.Exec.Sound.{Fine, Sound, Any, Sound-bind, Sound-map_err, Sound-pure}
use kromer.Database.Statements.{pool}
use kromer.Routes.Gateway.{setup_ws, issue_token, token_data, url_of, token_of}
use kromer.Routes.Misc.{Environment, login_address}
use kromer.WebSockets.{WebSocketServer, WebSocketTokenData}
use kromer.WebSockets.Keeps.{stays_rules, verify_address-Stays}
use kromer.WebSockets.Server.{obtain_token}

module _ {Good : Tables → Type 0} (rows : Rows Good) (x : Externals) where
  pub login_address-Stays : (key : String) → Stays Good (login_address x key)
  unfolding login_address
  login_address-Stays key = search (stays_rules, verify_address-Stays rows x)

  issue_token-Stays : (draws : List ℕ) (d : WebSocketTokenData) → Stays Good (issue_token draws d)
  unfolding issue_token
  issue_token-Stays draws d = record { at = λ w h. issued (obtain_token draws d w.server) w h }
    where
      issued :
          (o : Option (ℕ × WebSocketServer)) (w : World)
          → Safe Good w
          → After (λ _. Safe Good) (Safe Good) (token_of o w)
      issued none w h = h
      issued (some (uuid, s)) w h = record { outside = h.outside }

  token_data-Stays :
      (key : Option String) (computer : Option ℤ) → Stays Good (token_data x key computer)
  token_data-Stays none computer = search stays_rules
  token_data-Stays (some key) computer = search (stays_rules, verify_address-Stays rows x)

  url_of-Stays :
      (env : Environment) (print : ℕ → String) (uuid : Option ℕ)
      → Stays Good (url_of x env print uuid)
  url_of-Stays env print none = search stays_rules
  url_of-Stays env print (some uuid) = search (stays_rules, Ensures-ok_or)

  pub setup_ws-Stays :
      (env : Environment) (print : ℕ → String) (draws : List ℕ) (key : Option String)
      (computer : Option ℤ)
      → Stays Good (setup_ws x env print draws key computer)
  unfolding setup_ws
  setup_ws-Stays env print draws key computer =
      search (stays_rules, token_data-Stays, issue_token-Stays, url_of-Stays)

module _ (x : Externals) where
  pub login_address-Sound : (key : String) → Sound Any (login_address x key)
  unfolding login_address
  login_address-Sound key = search (handler_rules, verify_address-Sound x)

  issue_token-Sound : (draws : List ℕ) (d : WebSocketTokenData) → Sound Any (issue_token draws d)
  unfolding issue_token
  issue_token-Sound draws d = record { at = λ w. issued (obtain_token draws d w.server) w }
    where
      issued : (o : Option (ℕ × WebSocketServer)) (w : World) → Fine Any (token_of o w).0
      issued none w = tt
      issued (some (uuid, s)) w = tt

  token_data-Sound :
      (key : Option String) (computer : Option ℤ) → Sound Any (token_data x key computer)
  token_data-Sound none computer = search handler_rules
  token_data-Sound (some key) computer =
      Sound-bind _ _ (Sound-map_err _ _ (λ e h. tt) (verify_address-Sound x pool key))
        λ r. Sound-pure _

  url_of-Sound :
      (env : Environment) (print : ℕ → String) (uuid : Option ℕ)
      → Sound Any (url_of x env print uuid)
  url_of-Sound env print none = search handler_rules
  url_of-Sound env print (some uuid) = search handler_rules

  pub setup_ws-Sound :
      (env : Environment) (print : ℕ → String) (draws : List ℕ) (key : Option String)
      (computer : Option ℤ)
      → Sound Any (setup_ws x env print draws key computer)
  unfolding setup_ws
  setup_ws-Sound env print draws key computer =
      search (handler_rules, token_data-Sound, issue_token-Sound, url_of-Sound)
