-- ===== src/Database/Transactions/Conserves.antt =====
-- `create_impl` of src/database/transaction.rs and the sum of the balances, between its two updates
-- and after them; with the other writes, `Balanced b` as a predicate of Database/Closed.
use kromer.Prelude.{ℕ, ℤ, ◌+ℤ◌, neg_ℤ, int_laws, String, ◌≡◌, List, Bool}
use mathlib.Core.Path.{subst}
use kromer.Exec.{from_sqlx, Outcome, ok, err, panic}
use kromer.Errors.{SqlxError}
use kromer.Database.{Tables, Serials, Wallet, Name, Transaction, TransactionCreateData}
use kromer.Database.Statements.{tx, insert, put_rows}
use kromer.Database.Wallets.{update_balance, fetch_by_address}
use kromer.Database.Wallets.Total.{Balanced, write_wallet-Balanced, insert_wallet-Balanced}
use kromer.Database.Names.{insert_name, write_name, accepts_name}
use kromer.Database.Transactions.{
  create_impl, insert_transaction, accepts_transaction, full_row, next_transaction,
}
use kromer.Database.Keeps.{
  Both, Safe, Both-Safe, Writes, Writes-check, Keeps-query, Keeps-update, Keeps-insert,
}
use kromer.Database.Closed.{Closed, Keeps}
use kromer.Exec.Ensures.{Ensures, Ensures-ok_or, Ensures-bind, Keeps-bind, Ensures-map_err}

-- A transaction record leaves the wallets alone.
pub insert_transaction-Writes :
    (W : Tables → Type 0) (row : ℕ → ℕ → Transaction) (s : Serials) (now : ℕ) (t : Tables)
    → ((l : _) → W t → W (record t { transactions = l }))
    → W t
    → Writes W (insert_transaction row s now t)
unfolding insert_transaction
insert_transaction-Writes W row s now t k h =
    let r : Transaction = row s.transaction_id now in
    Writes-check W (accepts_transaction r r.from) r _ (λ _. k _ h)

module _ (C : Tables → Type 0) where
  pub update_balance-Moves :
      (b d : ℤ) (w : Wallet)
      → Ensures
          (Both C (Balanced b))
          (λ _. Both C (Balanced (b +ℤ d)))
          (Safe C)
          (update_balance w tx d)
  unfolding update_balance
  update_balance-Moves b d w =
      Keeps-update _ (λ now t h. write_wallet-Balanced w.address now t b d h)

  found_or-Keeps : {W : Tables → Type 0} (a : String) → Keeps C W (fetch_by_address tx a)
  unfolding fetch_by_address
  found_or-Keeps a = Ensures-map_err from_sqlx _ (Keeps-query tx _)

there_and_back : (b d : ℤ) → b +ℤ neg_ℤ d +ℤ d ≡ b
there_and_back b d = omega int_laws

module _ (C : Tables → Type 0) (b : ℤ) (d : TransactionCreateData) where
  credit :
      (w : Wallet)
      → Ensures
          (Both C (Balanced (b +ℤ neg_ℤ d.amount)))
          (λ _. Both C (Balanced b))
          (Safe C)
          (update_balance w tx d.amount)
  credit w =
      subst
        (λ s.
          Ensures (Both C (Balanced (b +ℤ neg_ℤ d.amount))) (λ _. Both C (Balanced s)) (Safe C)
            (update_balance w tx d.amount))
        (there_and_back b d.amount) (update_balance-Moves C (b +ℤ neg_ℤ d.amount) d.amount w)

  record_it : Keeps C (Balanced b) (insert tx next_transaction (insert_transaction (full_row d)))
  record_it = Keeps-insert _ _ λ s now t.
      insert_transaction-Writes (Balanced b) (full_row d) s now t
        (λ l h. record { unique = h.unique; sums = h.sums })

  create_impl-Keeps : Keeps C (Balanced b) (create_impl d)
  unfolding create_impl
  create_impl-Keeps = Keeps-bind _ _ (found_or-Keeps C d.from) λ from.
      Keeps-bind _ _ (Ensures-ok_or from _ Both-Safe) λ sender.
        Keeps-bind _ _ (found_or-Keeps C d.to) λ to.
          Keeps-bind _ _ (Ensures-ok_or to _ Both-Safe) λ recipient.
            Ensures-bind _ _
              (Ensures-map_err from_sqlx _ (update_balance-Moves C b (neg_ℤ d.amount) sender))
              λ _.
                Ensures-bind _ _ (Ensures-map_err from_sqlx _ (credit recipient))
                  λ _. Ensures-map_err from_sqlx _ record_it

name-Writes :
    (b : ℤ) (o : Outcome SqlxError (Name × List Name)) (t : Tables)
    → Balanced b t
    → Writes (Balanced b) (put_rows (λ rows. record t { names = rows }) o)
name-Writes b (ok (r, rows)) t h = record { unique = h.unique; sums = h.sums }
name-Writes b (err e) t h = tt
name-Writes b panic t h = tt

insert_name-Balanced :
    (b : ℤ) (n o : String) (s : Serials) (now : ℕ) (t : Tables)
    → Balanced b t
    → Writes (Balanced b) (insert_name n o s now t)
unfolding insert_name
insert_name-Balanced b n o s now t h =
    Writes-check (Balanced b) (accepts_name s.name_id t.names n o) _ _
      (λ _. record { unique = h.unique; sums = h.sums })

write_name-Balanced :
    (b : ℤ) (fits : Name → Bool) (n : String) (f : ℕ → Name → Name) (now : ℕ) (t : Tables)
    → Balanced b t
    → Writes (Balanced b) (write_name fits n f now t)
unfolding write_name
write_name-Balanced b fits n f now t h = name-Writes b _ t h

-- Every write of the program that goes through these operations leaves the sum of balances alone.
pub Balanced-Closed : (b : ℤ) → Closed (Balanced b)
Balanced-Closed b = record {
  moves = record {
    rows = record {
      wallet_inserted = λ a hash s now t. insert_wallet-Balanced a now t b hash s;
      name_inserted = insert_name-Balanced b;
      name_written = λ fits n f now t _ _. write_name-Balanced b fits n f now t;
    };
    money_moved = λ C d. create_impl-Keeps C b d;
  };
  owner_written = record { at = λ n o. write_name-Balanced b _ n _ };
}
