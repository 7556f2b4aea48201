-- ===== src/Routes/Registers.antt =====
-- What a purchase by `POST /names/{name}` does where no message to the database is lost: the answer, the committed
-- tables and the event.
use kromer.Prelude.{suc, pos, ltb_ℤ, String, ◌≡◌, refl, none, some, find, push, select, true, false}
use kromer.Errors.Krist.{KristError}
use kromer.Database.{Tables, Wallet, Name, Transaction, name_purchase}
use kromer.Database.Externals.{Externals, make_v2_address}
use kromer.Database.Names.{named, fetch_by_name, create, accepts_name, insert_name}
use kromer.Database.Statements.{query, insert}
use kromer.Database.Transactions.{create_in_transaction}
use kromer.Database.Transactions.Runs.{Payable, create_impl-run}
use kromer.Database.Wallets.{at_address, same_key, key_hash}
use kromer.Database.Wallets.Settled.{settled, paid-settled}
use kromer.Database.Wallets.Runs.{calm, verify_address-run}
use kromer.Exec.{ok, World, trip, replied, begin, commit, scoped, ◌>>=◌}
use kromer.Models.{name_json, transaction_json}
use kromer.Models.Messages.{new_event, WebSocketEvent}
use kromer.Routes.Names.{purchase_data, register_in_transaction, name_register}
use kromer.Validation.{is_valid_name, trim}
use kromer.WebSockets.{WebSocketServer}
use kromer.WebSockets.Broadcast.{deliver_all}
use kromer.WebSockets.Delivery.{wants, broadcast_event-transaction}

module _ (x : Externals) (raw key : String) (w : World) where
  -- The name as it is registered.
  abbrev pub registered : String
  registered = x.to_lowercase (trim raw)

  -- A purchase that every check lets through.
  pub record Purchase : Type 0 where
    pub buyer : Wallet
    pub valid : is_valid_name x registered false ≡ true
    pub free : find (named registered) w.committed.names ≡ none
    pub buyer_found : find (at_address (make_v2_address x key)) w.committed.wallets ≡ some buyer
    pub key_right : same_key buyer.private_key (key_hash x key) ≡ true
    pub enough : ltb_ℤ buyer.balance (pos 50000) ≡ false
    pub payable : Payable w.committed (purchase_data buyer.address) w.serials.transaction_id w.now
    pub name_fits : accepts_name w.serials.name_id w.committed.names registered buyer.address ≡ true

  -- The row of the payment.
  abbrev pub payment : Purchase → Transaction
  payment p = record {
    id = w.serials.transaction_id;
    amount = pos 50000;
    from = some p.buyer.address;
    to = "serverwelf";
    metadata = some "";
    name = none;
    sent_metaname = none;
    sent_name = none;
    transaction_type = name_purchase;
    date = w.now;
  }

  -- The row of the name.
  abbrev pub bought : Purchase → Name
  bought p = record {
    id = w.serials.name_id;
    last_transfered = none;
    last_updated = none;
    name = registered;
    owner = p.buyer.address;
    original_owner = p.buyer.address;
    time_registered = w.now;
    unpaid = pos 0;
    metadata = none;
  }

  -- The tables after the purchase.
  abbrev pub purchased : Purchase → Tables
  purchased p =
      let t = settled p.buyer.address "serverwelf" (pos 50000) (payment p) w.committed in
      record t { names = push t.names (bought p) }

  -- The sessions have been told of the payment.
  abbrev pub told : Purchase → WebSocketServer
  told p =
      let e = WebSocketEvent.transaction (transaction_json x (payment p)) in
      deliver_all (new_event e) (select (wants e) w.server.sessions) w.server

  abbrev pub after : Purchase → World
  after p = record (calm w) {
    committed = purchased p;
    working = none;
    serials = record w.serials {
      transaction_id = suc w.serials.transaction_id;
      name_id = suc w.serials.name_id;
    };
    server = told p;
  }

  abbrev started : World
  started = record w { working = none }

  register_in_transaction-run :
      (p : Purchase)
      → register_in_transaction x registered key (calm started) ≡ (
        ok (bought p),
        record (after p) { committed = w.committed; working = some (purchased p) },
      )
  unfolding register_in_transaction ◌>>=◌ create_in_transaction fetch_by_name query trip replied
      create insert insert_name
  register_in_transaction-run p =
      rw
        (
          p.free,
          verify_address-run x key started p.buyer p.buyer_found,
          p.key_right,
          p.enough,
          create_impl-run (purchase_data p.buyer.address) started p.payable,
          paid-settled (purchase_data p.buyer.address) w.serials.transaction_id w.now w.committed
              refl,
          broadcast_event-transaction (transaction_json x (payment p)) {E = KristError},
          p.name_fits,
        )
        refl

  -- A purchase that every check lets through, where no message to the database is lost, is answered with
  -- the row of the name, which belongs to the address of the key; 500.00 have gone from that wallet to
  -- `serverwelf`, the payment and the name are recorded, all of it is committed, and the sessions that
  -- want the event of the payment are sent it.
  pub name_register-registers :
      (p : Purchase)
      → name_register x raw (some key) (calm w) ≡ (ok (name_json x (bought p)), after p)
  unfolding name_register scoped begin commit trip replied ◌>>=◌
  name_register-registers p = rw (p.valid, register_in_transaction-run p) refl
