-- ===== src/Database/Transactions/Audit.antt =====
-- The balances of `wallets` against the rows of `transactions`: `create_impl` of
-- src/database/transaction.rs between its two updates and its insertion, and the other writes.
use mathlib.Core.Path.{subst, sym}
use kromer.Prelude.{
  ℕ, ℤ, pos, ◌+ℤ◌, neg_ℤ, int_laws, String, str_eq, ◌≡◌, refl, ap, ◌∙◌, Option, none, some, List,
  if◌then◌else◌, Bool,
}
use kromer.Errors.{SqlxError}
use kromer.Exec.{from_sqlx, Outcome, ok, err, panic, ok_or, throw, pure}
use kromer.Exec.Ensures.{Ensures, Ensures-bind, Ensures-map_err, given}
use kromer.Database.{Tables, Serials, Wallet, Name, TransactionCreateData}
use kromer.Database.Closed.{Closed, Keeps}
use kromer.Database.Keeps.{
  Both, Safe, Both-Safe, Writes, Writes-check, Writes-update_returning, Keeps-update, Keeps-insert,
}
use kromer.Database.Names.{insert_name, write_name, accepts_name}
use kromer.Database.Statements.{tx, put_rows}
use kromer.Database.Transactions.{create_impl, insert_transaction, full_row}
use kromer.Database.Wallets.{
  at_address, with_change, fits_wallet, insert_wallet, accepts_wallet, write_wallet, update_balance,
}
use kromer.Database.Transactions.Booked.{held, booked, booked-push, held-push, shift, held-moved}
use kromer.Database.Wallets.Verified.{LivesAt, fetch-LivesAt}

-- Of what the address holds, what the rows do not account for.
pub record Audited (g : String → ℤ) (t : Tables) : Type 0 where
  pub books : (who : String) → held who t.wallets ≡ g who +ℤ booked who t.transactions

insert_wallet-Audited :
    (g : String → ℤ) (a hash : String) (s : Serials) (now : ℕ) (t : Tables)
    → Audited g t
    → Writes (Audited g) (insert_wallet a hash (pos 0) s now t)
unfolding insert_wallet
insert_wallet-Audited g a hash s now t h =
    Writes-check (Audited g) (accepts_wallet s.wallet_id t.wallets a hash (pos 0)) _ _
      (λ _. record { books = λ who. held-push who t.wallets _ refl ∙ h.books who })

name-Audited :
    (g : String → ℤ) (o : Outcome SqlxError (Name × List Name)) (t : Tables)
    → Audited g t
    → Writes (Audited g) (put_rows (λ rows. record t { names = rows }) o)
name-Audited g (ok (r, rows)) t h = record { books = h.books }
name-Audited g (err e) t h = tt
name-Audited g panic t h = tt

insert_name-Audited :
    (g : String → ℤ) (n o : String) (s : Serials) (now : ℕ) (t : Tables)
    → Audited g t
    → Writes (Audited g) (insert_name n o s now t)
unfolding insert_name
insert_name-Audited g n o s now t h =
    Writes-check (Audited g) (accepts_name s.name_id t.names n o) _ _
      (λ _. record { books = h.books })

write_name-Audited :
    (g : String → ℤ) (fits : Name → Bool) (n : String) (f : ℕ → Name → Name) (now : ℕ) (t : Tables)
    → Audited g t
    → Writes (Audited g) (write_name fits n f now t)
unfolding write_name
write_name-Audited g fits n f now t h = name-Audited g _ t h

write_wallet-Audited :
    (g : String → ℤ) (a : String) (d : ℤ) (now : ℕ) (t : Tables)
    → Audited g t
    → Writes (Audited (shift a d g)) (write_wallet a (with_change d) now t)
unfolding write_wallet
write_wallet-Audited g a d now t h =
    Writes-update_returning fits_wallet (at_address a) (with_change d) t.wallets
      (Audited (shift a d g)) _
      λ v found. record {
        books = λ who.
            held-moved who a d t.wallets v found
            ∙ ap (λ b. b +ℤ (if str_eq who a then d else pos 0)) (h.books who)
            ∙ swapped (g who) (booked who t.transactions) (if str_eq who a then d else pos 0);
      }
  where
    swapped : (g b d : ℤ) → g +ℤ b +ℤ d ≡ g +ℤ d +ℤ b
    swapped g b d = omega int_laws

-- The row makes up for the two changes.
balanced :
    (g b m : ℤ) (to from : Bool)
    → g +ℤ (if from then neg_ℤ m else pos 0) +ℤ (if to then m else pos 0) +ℤ b
      ≡ g +ℤ (b +ℤ ((if to then m else pos 0) +ℤ (if from then neg_ℤ m else pos 0)))
balanced g b m to from = omega (int_laws)

insert_transaction-Audited :
    (g : String → ℤ) (d : TransactionCreateData) (s : Serials) (now : ℕ) (t : Tables)
    → Audited (shift d.to d.amount (shift d.from (neg_ℤ d.amount) g)) t
    → Writes (Audited g) (insert_transaction (full_row d) s now t)
unfolding insert_transaction
insert_transaction-Audited g d s now t h =
    let row = full_row d s.transaction_id now in
    Writes-check (Audited g) _ row _ (λ _. record {
      books = λ who.
          h.books who
          ∙ balanced (g who) (booked who t.transactions) d.amount (str_eq who d.to)
              (str_eq who d.from)
          ∙ ap (λ b. g who +ℤ b) (sym (booked-push who t.transactions row));
    })

module _ {C W : Tables → Type 0} where
  pub ok_or-LivesAt :
      {E : Type 0} (a : String) (o : Option Wallet) (e : E)
      → Ensures
          (λ w. Both C W w × LivesAt a o)
          (λ v w. Both C W w × (v.address ≡ a))
          (Safe C)
          (ok_or o e)
  unfolding ok_or throw pure
  ok_or-LivesAt a none e = record { at = λ w h. Both-Safe w h.0 }
  ok_or-LivesAt a (some v) e = record { at = λ w h. h }

module _ (C : Tables → Type 0) (g : String → ℤ) where
  update_balance-Shifts :
      (a : String) (d : ℤ) (v : Wallet)
      → v.address ≡ a
      → Ensures
          (Both C (Audited g))
          (λ _. Both C (Audited (shift a d g)))
          (Safe C)
          (update_balance v tx d)
  unfolding update_balance
  update_balance-Shifts a d v lives =
      subst
        (λ b.
          Ensures (Both C (Audited g)) (λ _. Both C (Audited (shift b d g))) (Safe C)
            (update_balance v tx d))
        lives (Keeps-update _ (λ now t h. write_wallet-Audited g v.address d now t h))

module _ (C : Tables → Type 0) (g : String → ℤ) where
  create_impl-Audited : (d : TransactionCreateData) → Keeps C (Audited g) (create_impl d)
  unfolding create_impl
  create_impl-Audited d = Ensures-bind _ _ (fetch-LivesAt d.from) λ o.
      Ensures-bind _ _ (ok_or-LivesAt d.from o _) λ sender. given λ from.
        Ensures-bind _ _ (fetch-LivesAt d.to) λ p.
          Ensures-bind _ _ (ok_or-LivesAt d.to p _) λ recipient. given λ to.
            Ensures-bind _ _
              (Ensures-map_err from_sqlx _
                (update_balance-Shifts C g d.from (neg_ℤ d.amount) sender from))
              λ _.
                Ensures-bind _ _
                  (Ensures-map_err from_sqlx _
                    (update_balance-Shifts C _ d.to d.amount recipient to))
                  λ _.
                    Ensures-map_err from_sqlx _ (Keeps-insert _ _ (insert_transaction-Audited g d))

-- Every write of the program that goes through these operations keeps the books.
pub Audited-Closed : (g : String → ℤ) → Closed (Audited g)
Audited-Closed g = record {
  moves = record {
    rows = record {
      wallet_inserted = insert_wallet-Audited g;
      name_inserted = insert_name-Audited g;
      name_written = λ fits n f now t _ _. write_name-Audited g fits n f now t;
    };
    money_moved = λ C d. create_impl-Audited C g d;
  };
  owner_written = record { at = λ n o. write_name-Audited g _ n _ };
}
