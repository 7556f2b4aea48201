-- ===== src/Lib.antt =====
-- Kromer, a currency server with the Krist protocol: wallets, payments and names in a PostgreSQL
-- database, an HTTP interface and a websocket gateway.
--
-- The parts, and the files that model them (paths from the repository's root):
--   * src/errors: Errors (the internal errors), Errors/Krist (those of the Krist routes) and
--     Errors/Responses (how these are answered).
--   * src/database.rs and src/database/*.rs: Database (the rows), Database/Statements (the forms of SQL
--     statement over lists of rows), Database/Wallets, Database/Transactions, Database/Names and
--     Database/Players (one function for each query or method), their `Listing` children (read-only
--     lists), Database/Transactions/NameData (the recipient `meta@name.kro`) and Database/Paginated.
--   * src/utils/validation.rs: Validation, whose regular expressions are matched by derivatives
--     (Validation/Matching; Validation/Matching/Denotes relates the matcher to the usual meaning).
--   * src/utils/crypto.rs: Crypto, the derivation of an address from a private key; Crypto/Digest says
--     what it needs of the digest.
--   * src/models: Models, Models/Messages and Models/Motd.
--   * src/routes/krist/transactions.rs: Routes/Transactions; src/routes/krist/names.rs: Routes/Names;
--     src/routes/internal/wallet.rs and src/routes/v1/wallet.rs: Routes/Internal;
--     src/routes/krist/wallet.rs and src/routes/krist/lookup/addresses.rs: Routes/Addresses;
--     src/routes/krist/misc.rs, src/guards.rs and src/websockets/utils/make_url.rs: Routes/Misc;
--     src/routes/internal/ws.rs, src/routes/v1/ws.rs and src/routes/not_found.rs: Routes/Sockets.
--   * src/routes/krist/ws.rs: Routes/Gateway. A connection is a state; one round of its heartbeat or of
--     its reader is a step on that state and the server, and Routes/Gateway/Events puts these steps and
--     those of the rest of the server into sequences.
--   * the `config` functions of src/routes, src/guards.rs and the default service of src/main.rs:
--     Routes/Routing (what a service, a scope and a guard do with a path) and Routes/Routing/Table.
--   * src/websockets: WebSockets (the state), WebSockets/Subscriptions, WebSockets/Server (the methods
--     on sessions and tokens), WebSockets/Broadcast, WebSockets/Routes (the client messages) and
--     WebSockets/Handler (`process_text_msg`).
--
-- A handler is a function of `Exec`: it takes a `World` (the committed tables, the open
-- transaction's tables, the sequences, the lost messages to come, the clock and the websocket
-- server) and returns a result, an error or a panic together with the next world. A statement goes
-- to the pool, where it commits by itself, or to the transaction; a transaction that a function
-- leaves uncommitted is rolled back at its end. Which messages to and from the database are lost is
-- part of the world: a lost request changes nothing, and a lost reply leaves what the statement or
-- the commit has done. A theorem about every world is about every such pattern.
-- `Routes.Serving.Request` are the client requests under `/api/krist` that may write: payments,
-- purchases, updates and transfers of names, `POST /login`, `POST /ws/start`, and the messages of
-- the gateway. The internal routes, which make gifts and wallets with a key of their own, are not
-- among them.
--
-- Proofs: Exec/Ensures has one rule for each way to build an action; Database/Keeps and
-- Database/Stays one for each kind of statement; Database/Closed gathers what a predicate on tables
-- must satisfy to survive the program's writes, and Routes/Keeps and WebSockets/Keeps apply it to
-- every handler; Exec/Sound has the rules for actions that do not panic. Database/Wallets/Verified
-- says which wallet a key leads to, and Database/Transactions/Audit what a payment does to the
-- balances and the rows; Database/Transactions/Pushed and Database/Wallets/Settled what it adds and
-- what it makes of the wallets. Database/Wallets/Runs and Database/Transactions/Runs compute the
-- operations where nothing is lost. Examples holds a small server, and the theorems at it. The
-- theorems about handlers stand in Routes/Serving (sequences of requests), Routes/Overdraft,
-- Routes/Spares, Routes/Sound, Routes/Pays, Routes/Registers, Routes/Atomic, Routes/Owners,
-- Routes/Ownership, Routes/Gives, Routes/Lookup, Routes/Supply, Routes/Recipients, Routes/Logins,
-- Routes/Ledger, Routes/Richest, Routes/Routing and Routes/Gateway/Life, those about addresses in
-- Validation/Texts and Validation/Derived, those about the websocket server in WebSockets/Sessions
-- and WebSockets/Delivery (WebSockets/Stable has what a client's message leaves alone), and those
-- about the database layer in Database/Paging, Database/Paginated/Walk and
-- Database/Transactions/Parsing.
--
-- Amounts are hundredths over the integers of Prelude/Int, as the columns are NUMERIC(16, 2); the
-- check of the column's width is written out. Association lists stand for the concurrent maps, and
-- `obtain_token` takes the list of identifiers that the generator draws. Only the search of
-- `make_v2_address` runs on fuel. The digest is a parameter (`Externals`) with the hypothesis
-- `IsDigest`: its texts begin with pairs of hexadecimal digits, and along a chain of digests the
-- byte at each of nine places meets every residue of nine within `patience` steps; fuel for nine
-- times that is enough. The last is an assumption, under which `make_v2_address` is a total
-- function (Crypto/Address): nothing that can be read promises it, and for a key whose chain fell
-- into a short cycle the source's loop would not end. Other parameters are the rounding of a
-- decimal, the lower case of a text, the printing of instants and identifiers, the JSON parser and
-- the environment's variables.
--
-- Not modelled: serialisation, the frames of the websocket protocol, start-up, the generator of
-- passwords, and the greeting texts of the index routes. Two database transactions are not
-- interleaved: a request runs to its end before the next one. Where a parameter of a look-up has
-- the character 0, PostgreSQL refuses the query, and the model finds nothing; rows with it are
-- refused. The sends of one broadcast are made in the order of the session list, which is any
-- order.
pub mod Prelude
pub mod Crypto
pub mod Errors
pub mod Database
pub mod Models
pub mod Validation
pub mod WebSockets
pub mod Exec
pub mod Routes
pub mod Examples
