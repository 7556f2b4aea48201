-- ===== src/Database/Transactions/Pushed.antt =====
-- `create_impl` of src/database/transaction.rs and the lists of rows: what it adds to `transactions`, and
-- what it leaves alone.
use kromer.Prelude.{
  ℕ, ℤ, neg_ℤ, String, ◌≡◌, refl, ap, some, List, push, Bool, true, false, if◌then◌else◌,
}
use kromer.Errors.{SqlxError, database}
use kromer.Exec.{from_sqlx, Outcome, ok, err, panic}
use kromer.Exec.Ensures.{Ensures, Ensures-map_err, Keeps-bind, Ensures-ok_or}
use kromer.Database.{Tables, Serials, Wallet, Transaction, TransactionCreateData}
use kromer.Database.Closed.{Keeps}
use kromer.Database.Keeps.{
  Both, Safe, Both-Safe, Writes, Keeps-query, Keeps-update, Yields, insert-Yields,
}
use kromer.Database.Statements.{tx, put_rows}
use kromer.Database.Transactions.{create_impl, insert_transaction, full_row, accepts_transaction}
use kromer.Database.Wallets.{fetch_by_address, update_balance, write_wallet}

-- The two lists as they were.
pub record Same (t u : Tables) : Type 0 where
  pub transactions : u.transactions ≡ t.transactions
  pub names : u.names ≡ t.names

-- One row more, for a payment of `amount` from `from`.
pub record Pushed (t : Tables) (from : String) (amount : ℤ) (r : Transaction) (u : Tables)
    : Type 0 where
  pub transactions : u.transactions ≡ push t.transactions r
  pub names : u.names ≡ t.names
  pub sender : r.from ≡ some from
  pub is_amount : r.amount ≡ amount

module _ (t : Tables) where
  rows-Same :
      (o : Outcome SqlxError (Wallet × List Wallet)) (u : Tables)
      → Same t u
      → Writes (Same t) (put_rows (λ rows. record u { wallets = rows }) o)
  rows-Same (ok (r, rows)) u h = record { transactions = h.transactions; names = h.names }
  rows-Same (err e) u h = tt
  rows-Same panic u h = tt

  insert_transaction-Pushed :
      (d : TransactionCreateData) (s : Serials) (now : ℕ) (u : Tables)
      → Same t u
      → Yields (Pushed t d.from d.amount) (insert_transaction (full_row d) s now u)
  unfolding insert_transaction
  insert_transaction-Pushed d s now u h =
      let r = full_row d s.transaction_id now in either (accepts_transaction r (some d.from))
    where
      either :
          (b : Bool)
          → Yields (Pushed t d.from d.amount) (
              if b
              then ok (
                full_row d s.transaction_id now,
                record u { transactions = push u.transactions (full_row d s.transaction_id now) },
              )
              else err database)
      either true = record {
        transactions = ap (λ l. push l (full_row d s.transaction_id now)) h.transactions;
        names = h.names;
        sender = refl;
        is_amount = refl;
      }
      either false = tt

  module _ (C : Tables → Type 0) where
    pub fetch_by_address-Same : (a : String) → Keeps C (Same t) (fetch_by_address tx a)
    unfolding fetch_by_address
    fetch_by_address-Same a = Ensures-map_err from_sqlx _ (Keeps-query tx _)

    update_balance-Same : (v : Wallet) (d : ℤ) → Keeps C (Same t) (update_balance v tx d)
    unfolding update_balance write_wallet
    update_balance-Same v d = Keeps-update _ (λ now u h. rows-Same _ u h)

    pub create_impl-Pushed :
        (d : TransactionCreateData)
        → Ensures
            (Both C (Same t))
            (λ r. Both C (Pushed t d.from d.amount r))
            (Safe C)
            (create_impl d)
    unfolding create_impl
    create_impl-Pushed d = Keeps-bind _ _ (fetch_by_address-Same d.from) λ o.
        Keeps-bind _ _ (Ensures-ok_or o _ Both-Safe) λ v.
          Keeps-bind _ _ (fetch_by_address-Same d.to) λ p.
            Keeps-bind _ _ (Ensures-ok_or p _ Both-Safe) λ q.
              Keeps-bind _ _ (Ensures-map_err from_sqlx _ (update_balance-Same v (neg_ℤ d.amount)))
                λ _.
                  Keeps-bind _ _ (Ensures-map_err from_sqlx _ (update_balance-Same q d.amount)) λ _.
                    Ensures-map_err from_sqlx _
                      (insert-Yields (Pushed t d.from d.amount) _ _ (insert_transaction-Pushed d))
