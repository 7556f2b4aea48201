-- ===== src/Routes/Serving.antt =====
-- Any sequence of client requests, one after another: the handlers under `/api/krist` that write to the
-- database, and the messages of the gateway. The internal routes, which take a key of their own, are not
-- among them.
use kromer.Prelude.{ℕ, ℤ, ◌+ℤ◌, ◌-ℤ◌, int_laws, String, ◌≡◌, refl, Option, none, List, [], ◌∷◌}
use kromer.Database.{Tables}
use kromer.Database.Externals.{Externals}
use kromer.Database.Closed.{Closed}
use kromer.Database.Keeps.{Both, Safe, Both-Safe}
use kromer.Database.Names.{NameDataUpdateBody}
use kromer.Database.Names.Unique.{UniqueNames, NamesUnique-Closed}
use kromer.Database.Transactions.Audit.{Audited-Closed}
use kromer.Database.Transactions.Booked.{held, booked}
use kromer.Database.Transactions.Conserves.{Balanced-Closed}
use kromer.Database.Wallets.Total.{total, UniqueAddresses}
use kromer.Exec.{Outcome, ok, err, panic, World, Exec}
use kromer.Exec.Ensures.{After, Ensures}
use kromer.Models.Messages.{WebSocketMessageInner}
use kromer.Database.Stays.{Stays}
use kromer.Routes.Gateway.{setup_ws}
use kromer.Routes.Logins.{login_address-Stays, setup_ws-Stays}
use kromer.Routes.Misc.{Environment, login_address}
use kromer.Routes.Keeps.{
  Always, transaction_create-Keeps, name_register-Keeps, name_update_data-Keeps,
  name_transfer_route-Keeps,
}
use kromer.Routes.Names.{TransferNameRequest, name_register, name_update_data, name_transfer_route}
use kromer.Routes.Transactions.{TransactionDetails, transaction_create}
use kromer.WebSockets.Handler.{dispatch}
use kromer.WebSockets.Keeps.{dispatch-Stays, pay_with-Stays}

pub data Request : Type 0 where
  -- `POST /transactions`
  transfer : TransactionDetails → Request
  -- `POST /names/{name}`, with the key of its body
  register : String → Option String → Request
  -- `POST /names/{name}/update`
  update : String → NameDataUpdateBody → Request
  -- `POST /names/{name}/transfer`
  give : String → TransferNameRequest → Request
  -- `POST /login`, with the key
  log_in : String → Request
  -- `POST /ws/start`: the environment, how a UUID is printed and which are drawn, the key and the computer
  start : Environment → (ℕ → String) → List ℕ → Option String → Option ℤ → Request
  -- a parsed text message of a session
  message : ℕ → Option ℕ → WebSocketMessageInner → Request

-- A request begins with no transaction open.
abbrev pub idle : World → World
idle w = record w { working = none }

module _ (x : Externals) where
  unfoldable pub serve : Request → World → World
  serve (transfer d) w = (transaction_create x d (idle w)).1
  serve (register n key) w = (name_register x n key (idle w)).1
  serve (update n body) w = (name_update_data x n body (idle w)).1
  serve (give n d) w = (name_transfer_route x n d (idle w)).1
  serve (log_in key) w = (login_address x key (idle w)).1
  serve (start env print draws key computer) w =
      (setup_ws x env print draws key computer (idle w)).1
  serve (message uuid id m) w = (dispatch x uuid id m (idle w)).1

  unfoldable pub serve_all : List Request → World → World
  unfolding serve
  serve_all [] w = w
  serve_all (r ∷ rs) w = serve_all rs (serve r w)

module _ {E A : Type 0} (P R Q : World → Type 0) (m : Exec E A) where
  pub leaves : Ensures P (λ _. R) Q m → ((w : World) → R w → Q w) → (w : World) → P w → Q (m w).1
  leaves hm weaken w p = after (m w) (hm.at w p)
    where
      after : (r : Outcome E A × World) → After (λ _. R) Q r → Q r.1
      after (ok a, w') h = weaken w' h
      after (err e, w') h = h
      after (panic, w') h = h

module _ {Good : Tables → Type 0} where
  pub idle-Both : (w : World) → Safe Good w → Both Good Good (idle w)
  idle-Both w h = record { outside = h.outside; inside = h.outside }

  pub idle-Safe : (w : World) → Safe Good w → Safe Good (idle w)
  idle-Safe w h = record { outside = h.outside }

  pub idle-Always :
      {E A : Type 0} (m : Exec E A)
      → Always Good m
      → (w : World) → Safe Good w
      → Safe Good (m (idle w)).1
  idle-Always m hm w h = Both-Safe _ (
      leaves (Both Good Good) (Both Good Good) (Both Good Good) m hm (λ w b. b) (idle w)
        (idle-Both w h))

module _ {Good : Tables → Type 0} where
  pub idle-Stays :
      {E A : Type 0} (m : Exec E A)
      → Stays Good m
      → (w : World) → Safe Good w
      → Safe Good (m (idle w)).1
  idle-Stays m hm w h =
      leaves (Safe Good) (Safe Good) (Safe Good) m hm (λ w s. s) (idle w) (idle-Safe w h)

module _ (x : Externals) {Good : Tables → Type 0}
    (each : (r : Request) (w : World) → Safe Good w → Safe Good (serve x r w)) where
  -- What each request keeps, a sequence keeps.
  pub serve_all-Keeps : (rs : List Request) (w : World) → Safe Good w → Safe Good (serve_all x rs w)
  unfolding serve_all
  serve_all-Keeps [] w h = h
  serve_all-Keeps (r ∷ rs) w h = serve_all-Keeps rs (serve x r w) (each r w h)

module _ {Good : Tables → Type 0} (closed : Closed Good) (x : Externals) where
  pub serve-Keeps : (r : Request) (w : World) → Safe Good w → Safe Good (serve x r w)
  unfolding serve
  serve-Keeps (transfer d) w h = idle-Always _ (transaction_create-Keeps closed.moves x d) w h
  serve-Keeps (register n key) w h = idle-Always _ (name_register-Keeps closed.moves x n key) w h
  serve-Keeps (update n body) w h =
      leaves (Both Good Good) (Both Good Good) (Safe Good) _
        (name_update_data-Keeps closed.moves.rows x n body) Both-Safe (idle w) (idle-Both w h)
  serve-Keeps (give n d) w h = idle-Always _ (name_transfer_route-Keeps closed x n d) w h
  serve-Keeps (log_in key) w h = idle-Stays _ (login_address-Stays closed.moves.rows x key) w h
  serve-Keeps (start env print draws key computer) w h =
      idle-Stays _ (setup_ws-Stays closed.moves.rows x env print draws key computer) w h
  serve-Keeps (message uuid id m) w h =
      leaves (Safe Good) (Safe Good) (Safe Good) _
        (dispatch-Stays closed.moves.rows x (pay_with-Stays closed.moves x) uuid id m) (λ w s. s)
        (idle w) (idle-Safe w h)

-- Whatever client requests come under `/api/krist`, and whichever messages to the database are
-- lost, the sum of the balances that are committed stays the same, if no two wallets had one
-- address at the start.
pub total-serve_all :
    (x : Externals) (rs : List Request) (w : World)
    → UniqueAddresses w.committed.wallets
    → total (serve_all x rs w).committed.wallets ≡ total w.committed.wallets
total-serve_all x rs w u =
    (serve_all-Keeps x (serve-Keeps (Balanced-Closed (total w.committed.wallets)) x) rs w
      (record { outside = record { unique = u; sums = refl } })).outside.sums

-- Whatever client requests come under `/api/krist`, logins among them, and whichever messages
-- to the database are lost, no two committed wallets have one address, if no two had one at the
-- start.
pub serve_all-UniqueAddresses :
    (x : Externals) (rs : List Request) (w : World)
    → UniqueAddresses w.committed.wallets
    → UniqueAddresses (serve_all x rs w).committed.wallets
serve_all-UniqueAddresses x rs w u =
    (serve_all-Keeps x (serve-Keeps (Balanced-Closed (total w.committed.wallets)) x) rs w
      (record { outside = record { unique = u; sums = refl } })).outside.unique

-- Whatever client requests come under `/api/krist`, and whichever messages to the database are
-- lost, no two committed rows of `names` have one name, if no two had one at the start.
pub serve_all-UniqueNames :
    (x : Externals) (rs : List Request) (w : World)
    → UniqueNames w.committed.names
    → UniqueNames (serve_all x rs w).committed.names
serve_all-UniqueNames x rs w u =
    (serve_all-Keeps x (serve-Keeps NamesUnique-Closed x) rs w
      (record { outside = record { unique = u } })).outside.unique

-- Whatever client requests come one after another under `/api/krist`, logins among them, and
-- whichever messages to the database are lost, the committed rows of `transactions` account for
-- every balance: at each address, what is held less what the rows say was received and sent is
-- the same as at the start (an address without a wallet holds nothing).
pub serve_all-Audited :
    (x : Externals) (rs : List Request) (w : World) (who : String)
    → held who (serve_all x rs w).committed.wallets
        -ℤ booked who (serve_all x rs w).committed.transactions
      ≡ held who w.committed.wallets -ℤ booked who w.committed.transactions
serve_all-Audited x rs w who =
    let g : String → ℤ = λ a. held a w.committed.wallets -ℤ booked a w.committed.transactions in
    rest (held who (serve_all x rs w).committed.wallets) _ _ (
      (serve_all-Keeps x (serve-Keeps (Audited-Closed g) x) rs w (record {
        outside = record {
          books = λ a. split (held a w.committed.wallets) (booked a w.committed.transactions);
        };
      })).outside.books
        who)
  where
    split : (h b : ℤ) → h ≡ h -ℤ b +ℤ b
    split h b = omega int_laws

    rest : (h g b : ℤ) → h ≡ g +ℤ b → h -ℤ b ≡ g
    rest h g b e = rw e (omega int_laws)
