-- ===== src/Exec.antt =====
-- A request against the server: the state that a handler reads and writes, and the monad of
-- handlers. `Outcome` is `Result<A, E>`, and `panic` is a panic of the handler's task.
--
-- `committed` is the database as any other connection sees it. `working` is what the request's open
-- transaction has written so far, `none` before its first write. `faults` says of each coming message
-- between the program and the database server whether it is lost. A request that is lost changes nothing
-- on the server; a reply that is lost leaves what the statement or the commit has done there.
pub mod Ensures
pub mod Sound
use kromer.Prelude.{ℕ, Option, none, some, List, [], ◌∷◌, Bool, true, false}
use kromer.Database.{Tables, Serials}
use kromer.Errors.{SqlxError, io, DatabaseError, KromerError, kromer_of_database}
use kromer.Errors.Krist.{KristError, krist_of_database}
use kromer.WebSockets.{WebSocketServer}

pub data Outcome (E A : Type 0) : Type 0 where
  ok : A → Outcome E A
  err : E → Outcome E A
  panic : Outcome E A

pub record World : Type 0 where
  pub committed : Tables
  pub working : Option Tables
  pub serials : Serials
  pub faults : List Bool
  pub now : ℕ
  pub server : WebSocketServer

abbrev pub Exec : Type 0 → Type 0 → Type 0
Exec E A = World → Outcome E A × World

module _ {E A : Type 0} where
  unfoldable pub pure : A → Exec E A
  pure a w = (ok a, w)

  unfoldable pub throw : E → Exec E A
  throw e w = (err e, w)

  unfoldable pub lift : Outcome E A → Exec E A
  lift r w = (r, w)

  unfoldable pub gets : (World → A) → Exec E A
  gets f w = (ok (f w), w)

  -- `ok_or_else`
  unfoldable pub ok_or : Option A → E → Exec E A
  ok_or none e = throw e
  ok_or (some a) _ = pure a

module _ {E : Type 0} where
  -- `if c { return Err(e) }`
  unfoldable pub throw_if : Bool → E → Exec E (Unit {0})
  throw_if true e w = (err e, w)
  throw_if false e w = (ok tt, w)

  unfoldable pub modify_server : (WebSocketServer → WebSocketServer) → Exec E (Unit {0})
  modify_server f w = (ok tt, record w { server = f w.server })

module _ {F A : Type 0} where
  abbrev pub fail : Option F → Outcome F A
  fail none = panic
  fail (some e) = err e

module _ {E F A : Type 0} where
  abbrev pub map_outcome : (E → Option F) → Outcome E A → Outcome F A
  map_outcome f (ok a) = ok a
  map_outcome f (err e) = fail (f e)
  map_outcome f panic = panic

  -- `map_err`, and the conversion that `?` makes; `none` is a panic of the conversion.
  unfoldable pub map_err : (E → Option F) → Exec E A → Exec F A
  map_err f m w = let (r, w') = m w in (map_outcome f r, w')

module _ {E A B : Type 0} where
  abbrev pub continue : Outcome E A → (A → Exec E B) → Exec E B
  continue (ok a) f w = f a w
  continue (err e) f w = (err e, w)
  continue panic f w = (panic, w)

  infixl 5 ◌>>=◌ ◌>>◌
  -- Opening this opens the other ways to build an action too.
  unfoldable pub ◌>>=◌ : Exec E A → (A → Exec E B) → Exec E B
  unfolding pure throw gets ok_or throw_if lift modify_server map_err
  ◌>>=◌ m f w = let (r, w') = m w in continue r f w'

  abbrev pub ◌>>◌ : Exec E A → Exec E B → Exec E B
  m >> k = m >>= λ _. k

-- `impl From<sqlx::Error>` for the error types of the database layer and of the Krist routes.
abbrev pub from_sqlx : SqlxError → Option DatabaseError
from_sqlx e = some (DatabaseError.sqlx e)

abbrev pub krist_from_sqlx : SqlxError → Option KristError
krist_from_sqlx e = some (KristError.database e)

module _ {A : Type 0} where
  -- `?` from `sqlx::Error` into each error type, and from `DatabaseError` into the routes' two.
  abbrev pub sqlx_to_database : Exec SqlxError A → Exec DatabaseError A
  sqlx_to_database = map_err from_sqlx

  abbrev pub sqlx_to_krist : Exec SqlxError A → Exec KristError A
  sqlx_to_krist = map_err krist_from_sqlx

  abbrev pub sqlx_to_kromer : Exec SqlxError A → Exec KromerError A
  sqlx_to_kromer = map_err (λ e. some (KromerError.database e))

  abbrev pub to_krist : Exec DatabaseError A → Exec KristError A
  to_krist = map_err krist_of_database

  abbrev pub to_kromer : Exec DatabaseError A → Exec KromerError A
  to_kromer = map_err (λ e. some (kromer_of_database e))

-- One message to the database server or back; where nothing can be changed, one stands for both.
abbrev pub answer : List Bool → Exec SqlxError (Unit {0})
answer [] w = (ok tt, w)
answer (true ∷ rest) w = (err io, record w { faults = rest })
answer (false ∷ rest) w = (ok tt, record w { faults = rest })

unfoldable pub trip : Exec SqlxError (Unit {0})
trip w = answer w.faults w

-- The reply to what the server has just done.
unfoldable pub replied : {A : Type 0} → Exec SqlxError A → Exec SqlxError A
replied m = m >>= λ a. trip >> pure a

-- The tables that a statement inside the transaction sees.
abbrev pub current : World → Tables
current w = elim w.working [ none ↦ w.committed | some t ↦ t ]

-- `pool.begin()`
unfoldable pub begin : Exec SqlxError (Unit {0})
begin = trip >> λ w. (ok tt, record w { working = none })

-- `tx.commit()`
unfoldable pub commit : Exec SqlxError (Unit {0})
commit = trip >> replied (λ w. (ok tt, record w { committed = current w; working = none }))

-- A function that began a transaction: whatever it has not committed is rolled back at its end.
unfoldable pub scoped : {E A : Type 0} → Exec E A → Exec E A
scoped m w = let (r, w') = m w in (r, record w' { working = none })
