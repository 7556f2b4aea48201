-- ===== src/Routes.antt =====
-- The HTTP handlers, src/routes. A handler takes what the framework extracted from the request and
-- returns the value that it serialises; `Exec` carries the database, the websocket server and the
-- error that becomes the response.
pub mod Keeps
pub mod Sound
pub mod Spares
pub mod Serving
pub mod Atomic
pub mod Gives
pub mod Owners
pub mod Ownership
pub mod Funds
pub mod Overdraft
pub mod Pays
pub mod Registers
pub mod Routing
pub mod Transactions
pub mod Names
pub mod Internal
pub mod Addresses
pub mod Lookup
pub mod Misc
pub mod Supply
pub mod Gateway
pub mod Stable
pub mod Logins
pub mod Sockets
pub mod Recipients
pub mod Richest
pub mod Ledger
