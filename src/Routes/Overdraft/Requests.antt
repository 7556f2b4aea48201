-- ===== src/Routes/Overdraft/Requests.antt =====
-- Any sequence of the requests of Routes/Serving, and the sign of the balances.
use kromer.Prelude.{List}
use kromer.Database.Externals.{Externals}
use kromer.Database.Keeps.{Both, Safe, Both-Safe}
use kromer.Database.Wallets.Funds.{Funded}
use kromer.Database.Wallets.Total.{UniqueAddresses}
use kromer.Exec.{World}
use kromer.Routes.Funds.{Solvent}
use kromer.Routes.Logins.{login_address-Stays, setup_ws-Stays}
use kromer.Routes.Keeps.{name_update_data-Keeps}
use kromer.Routes.Overdraft.{transaction_create-Solvent}
use kromer.Routes.Overdraft.Messages.{pay_with-Solvent}
use kromer.Routes.Overdraft.Names.{Solvent-Rows, name_register-Solvent, name_transfer_route-Solvent}
use kromer.Routes.Serving.{
  Request, transfer, register, update, give, log_in, start, message, serve, serve_all, idle, leaves,
  idle-Both, idle-Safe, idle-Always, idle-Stays, serve_all-Keeps,
}
use kromer.WebSockets.Keeps.{dispatch-Stays}

module _ (x : Externals) where
  serve-Solvent : (r : Request) (w : World) → Safe Solvent w → Safe Solvent (serve x r w)
  unfolding serve
  serve-Solvent (transfer d) w h =
      leaves (Safe Solvent) (Safe Solvent) (Safe Solvent) _ (transaction_create-Solvent x d)
        (λ w s. s) (idle w) (idle-Safe w h)
  serve-Solvent (register n key) w h = idle-Always _ (name_register-Solvent x n key) w h
  serve-Solvent (update n body) w h =
      leaves (Both Solvent Solvent) (Both Solvent Solvent) (Safe Solvent) _
        (name_update_data-Keeps Solvent-Rows x n body) Both-Safe (idle w) (idle-Both w h)
  serve-Solvent (give n d) w h = idle-Always _ (name_transfer_route-Solvent x n d) w h
  serve-Solvent (log_in key) w h = idle-Stays _ (login_address-Stays Solvent-Rows x key) w h
  serve-Solvent (start env print draws key computer) w h =
      idle-Stays _ (setup_ws-Stays Solvent-Rows x env print draws key computer) w h
  serve-Solvent (message uuid id m) w h =
      leaves (Safe Solvent) (Safe Solvent) (Safe Solvent) _
        (dispatch-Stays Solvent-Rows x (pay_with-Solvent x) uuid id m) (λ w s. s) (idle w)
        (idle-Safe w h)

-- Whatever client requests come one after another under `/api/krist`, logins and websocket
-- messages among them, and whichever messages to the database are lost, no committed balance is
-- below zero, if none was at the start and no two wallets had one address.
pub serve_all-Funded :
    (x : Externals) (rs : List Request) (w : World)
    → UniqueAddresses w.committed.wallets
    → Funded w.committed.wallets
    → Funded (serve_all x rs w).committed.wallets
serve_all-Funded x rs w u f =
    (serve_all-Keeps x (serve-Solvent x) rs w
      (record { outside = record { unique = u; funded = f } })).outside.funded
