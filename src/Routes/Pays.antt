-- ===== src/Routes/Pays.antt =====
-- What a payment by `POST /transactions` does where no message to the database is lost: the answer, the committed
-- tables and the event.
use Prim.Native.String.{len}
use mathlib.Core.Option
use kromer.Prelude.{
  suc, ℤ, pos, ltb_ℤ, leb_ℤ, ltb, String, str_eq, ◌≡◌, refl, none, some, find, select, true, false,
  ◌||◌,
}
use kromer.Errors.Krist.{KristError}
use kromer.Database.{Tables, Wallet, Name, TransactionCreateData, Transaction, transfer}
use kromer.Database.Externals.{Externals, make_v2_address}
use kromer.Database.Names.{named, fetch_by_name, owner}
use kromer.Database.Statements.{query}
use kromer.Database.Transactions.{next_transaction, create_in_transaction}
use kromer.Database.Transactions.Runs.{Payable, paid, create_impl-run}
use kromer.Database.Wallets.{at_address, same_key, key_hash, fetch_by_address}
use kromer.Database.Wallets.Runs.{calm, verify_address-run}
use kromer.Database.Wallets.Settled.{settled, paid-settled}
use kromer.Exec.{ok, World, current, trip, replied, begin, commit, scoped, ◌>>=◌}
use kromer.Models.{transaction_json}
use kromer.Models.Messages.{new_event, WebSocketEvent}
use kromer.Routes.Transactions.{
  TransactionDetails, is_name, sent_data, owner_of_name, wallet_at, recipient_of, transfer_data,
  transfer_in_transaction, transaction_create,
}
use kromer.WebSockets.Broadcast.{deliver_all}
use kromer.WebSockets.Delivery.{wants, broadcast_event-transaction}

-- Who is paid: the wallet at an address, or the wallet of a name's owner.
pub data Recipient (t : Tables) (to : String) (r : Wallet) : Type 0 where
  direct : is_name to ≡ false → find (at_address to) t.wallets ≡ some r → Recipient t to r
  by_name :
      (row : Name)
      → is_name to ≡ true
      → find (named (Option.get_or (sent_data true to).name "")) t.names ≡ some row
      → find (at_address row.owner) t.wallets ≡ some r
      → Recipient t to r

pub recipient_of-run :
    (to : String) (w : World) (r : Wallet)
    → Recipient (current w) to r
    → recipient_of (is_name to) (sent_data (is_name to) to) to (calm w) ≡ (ok r, calm w)
unfolding ◌>>=◌ wallet_at owner_of_name fetch_by_address fetch_by_name owner query trip
recipient_of-run to w r (direct unnamed found) = rw (unnamed, found) refl
recipient_of-run to w r (by_name row is_named found_name found) =
    rw (is_named, found_name, found) refl

module _ (x : Externals) (details : TransactionDetails) (w : World) where
  abbrev amount : ℤ
  amount = x.round_dp2 details.amount

  -- A payment that every check lets through.
  pub record Acceptable : Type 0 where
    pub sender : Wallet
    pub recipient : Wallet
    pub to_fits : (str_eq details.to "" || ltb 64 (len details.to)) ≡ false
    pub positive : leb_ℤ (x.round_dp2 details.amount) (pos 0) ≡ false
    pub sender_found :
        find (at_address (make_v2_address x details.private_key)) w.committed.wallets ≡ some sender
    pub key_right : same_key sender.private_key (key_hash x details.private_key) ≡ true
    pub who : Recipient w.committed details.to recipient
    pub enough : ltb_ℤ sender.balance (x.round_dp2 details.amount) ≡ false
    pub not_to_self : str_eq sender.address recipient.address ≡ false
    pub payable :
        Payable w.committed
          (transfer_data sender recipient
            (x.round_dp2 details.amount)
            (sent_data (is_name details.to) details.to)
            details.metadata)
          w.serials.transaction_id
          w.now

  abbrev pub data_of : Acceptable → TransactionCreateData
  data_of a =
      transfer_data a.sender a.recipient (x.round_dp2 details.amount)
        (sent_data (is_name details.to) details.to) details.metadata

  -- The row that records the payment.
  abbrev pub row_of : Acceptable → Transaction
  row_of a = record {
    id = w.serials.transaction_id;
    amount = x.round_dp2 details.amount;
    from = some a.sender.address;
    to = a.recipient.address;
    metadata = some (Option.get_or details.metadata "");
    name = none;
    sent_metaname = (sent_data (is_name details.to) details.to).metaname;
    sent_name = (sent_data (is_name details.to) details.to).name;
    transaction_type = transfer;
    date = w.now;
  }

  abbrev started : World
  started = record w { working = none }

  transfer_in_transaction-run :
      (a : Acceptable)
      → transfer_in_transaction x details amount (calm started) ≡ (
        ok (row_of a),
        record (calm w) {
          working = some (paid (data_of a) w.serials.transaction_id w.now w.committed);
          serials = next_transaction w.serials;
        },
      )
  unfolding transfer_in_transaction ◌>>=◌ create_in_transaction
  transfer_in_transaction-run a =
      rw
        (
          verify_address-run x details.private_key started a.sender a.sender_found,
          a.key_right,
          recipient_of-run details.to started a.recipient a.who,
          a.enough,
          a.not_to_self,
          create_impl-run (data_of a) started a.payable,
        )
        refl

  -- The server once the row is announced.
  abbrev pub announced : Acceptable → World
  announced a =
      let e = WebSocketEvent.transaction (transaction_json x (row_of a)) in
      record (calm w) {
        committed =
            settled a.sender.address a.recipient.address (x.round_dp2 details.amount) (row_of a)
              w.committed;
        working = none;
        serials = record w.serials { transaction_id = suc w.serials.transaction_id };
        server = deliver_all (new_event e) (select (wants e) w.server.sessions) w.server;
      }

  -- Where no message to the database is lost, a payment that every check lets through is answered with
  -- its row, which has the rounded amount and goes from the address of the key to the recipient's wallet;
  -- the payer's balance goes down and the payee's up by the amount, their totals with them, the row is
  -- recorded, all of it is committed, and the sessions that want the event are sent it.
  pub transaction_create-pays :
      (a : Acceptable)
      → transaction_create x details (calm w) ≡ (ok (transaction_json x (row_of a)), announced a)
  unfolding transaction_create scoped begin commit trip replied ◌>>=◌
  transaction_create-pays a =
      rw
        (
          a.to_fits,
          a.positive,
          transfer_in_transaction-run a,
          paid-settled (data_of a) w.serials.transaction_id w.now w.committed a.positive,
          broadcast_event-transaction (transaction_json x (row_of a)) {E = KristError},
        )
        refl
