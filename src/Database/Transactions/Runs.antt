-- ===== src/Database/Transactions/Runs.antt =====
-- What `create_impl` returns and writes where no message to the database is lost.
use kromer.Prelude.{ℕ, neg_ℤ, str_eq, ◌≡◌, refl, sym, ◌∙◌, some, find, push, true, false}
use mathlib.Core.Path.{subst}
use kromer.Database.{Tables, Wallet, Transaction, TransactionCreateData}
use kromer.Database.Statements.{tx, insert}
use kromer.Database.Transactions.{
  accepts_transaction, insert_transaction, next_transaction, full_row, create_impl,
}
use kromer.Database.Wallets.{at_address, with_change, fits_wallet}
use kromer.Database.Wallets.Runs.{
  calm, fetch_by_address-run, update_balance-run, moved, find-moved, address-of-find,
}
use kromer.Database.Wallets.Total.{UniqueAddresses, update_where-UniqueAddresses}
use kromer.Exec.{ok, World, current, trip, replied, ◌>>=◌}

abbrev pub recorded : Transaction → Tables → Tables
recorded r t = record t { transactions = push t.transactions r }

insert_transaction-run :
    (d : TransactionCreateData) (w : World)
    → accepts_transaction (full_row d w.serials.transaction_id w.now) (some d.from) ≡ true
    → insert tx next_transaction (insert_transaction (full_row d)) (calm w) ≡ (
      ok (full_row d w.serials.transaction_id w.now),
      record (calm w) {
        working = some (recorded (full_row d w.serials.transaction_id w.now) (current w));
        serials = next_transaction w.serials;
      },
    )
unfolding insert trip replied ◌>>=◌ insert_transaction
insert_transaction-run d w h = rw h refl

-- A transfer between two wallets that are there and differ, and whose columns have room for it.
pub record Payable (t : Tables) (d : TransactionCreateData) (id now : ℕ) : Type 0 where
  pub sender : Wallet
  pub recipient : Wallet
  pub unique : UniqueAddresses t.wallets
  pub sender_found : find (at_address d.from) t.wallets ≡ some sender
  pub recipient_found : find (at_address d.to) t.wallets ≡ some recipient
  pub different : str_eq d.from d.to ≡ false
  pub sender_fits : fits_wallet (with_change (neg_ℤ d.amount) sender) ≡ true
  pub recipient_fits : fits_wallet (with_change d.amount recipient) ≡ true
  pub row_fits : accepts_transaction (full_row d id now) (some d.from) ≡ true

-- The tables after a transfer.
abbrev pub paid : TransactionCreateData → ℕ → ℕ → Tables → Tables
paid d id now t =
    recorded (full_row d id now) (moved d.to d.amount (moved d.from (neg_ℤ d.amount) t))

pub create_impl-run :
    (d : TransactionCreateData) (w : World)
    → Payable (current w) d w.serials.transaction_id w.now
    → create_impl d (calm w) ≡ (
      ok (full_row d w.serials.transaction_id w.now),
      record (calm w) {
        working = some (paid d w.serials.transaction_id w.now (current w));
        serials = next_transaction w.serials;
      },
    )
unfolding create_impl ◌>>=◌
create_impl-run d w p =
    let t = current w in
    let from : p.sender.address ≡ d.from =
      address-of-find d.from t.wallets p.sender p.sender_found in
    let to : p.recipient.address ≡ d.to =
      address-of-find d.to t.wallets p.recipient p.recipient_found in
    let debit =
      update_balance-run p.sender p.sender (neg_ℤ d.amount) w p.unique
        (subst (λ a. find (at_address a) t.wallets ≡ some p.sender) (sym from) p.sender_found)
        p.sender_fits in
    let w1 : World = record w { working = some (moved p.sender.address (neg_ℤ d.amount) t) } in
    let credit =
      update_balance-run p.recipient p.recipient d.amount w1
        (update_where-UniqueAddresses (with_change (neg_ℤ d.amount)) (λ v. refl) p.sender.address
          t.wallets p.unique)
        (subst
          (λ a.
            find (at_address a) (moved p.sender.address (neg_ℤ d.amount) t).wallets
            ≡ some p.recipient)
          (sym to)
          (subst
            (λ a. find (at_address d.to) (moved a (neg_ℤ d.amount) t).wallets ≡ some p.recipient)
            (sym from)
            (find-moved d.from d.to (neg_ℤ d.amount) t.wallets p.different ∙ p.recipient_found)))
        p.recipient_fits in
    let w2 : World = record w1 {
      working = some (moved p.recipient.address d.amount (current w1));
    } in
    rw
      (
        fetch_by_address-run d.from w,
        p.sender_found,
        fetch_by_address-run d.to w,
        p.recipient_found,
        debit,
        credit,
        insert_transaction-run d w2 p.row_fits,
        from,
        to,
      )
      refl
