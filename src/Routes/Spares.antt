-- ===== src/Routes/Spares.antt =====
-- Payments and the wallets that they do not come from: `create_impl` of src/database/transaction.rs
-- and the HTTP handlers of src/routes/krist take nothing from a wallet at another address than that of
-- the request's key.
pub mod Handlers
pub mod Messages
pub mod Requests
use mathlib.Core.Path.{subst, sym}
use kromer.Prelude.{
  ℕ, ℤ, pos, ◌+ℤ◌, neg_ℤ, ◌≤ℤ◌, int_laws, String, str_eq, ◌≡◌, refl, Option, none, some, List,
  if◌then◌else◌, Bool, true, false, arith,
}
use kromer.Errors.{SqlxError, DatabaseError}
use kromer.Errors.Krist.{KristError, krist_of_database}
use kromer.Database.{Tables, Serials, Wallet, Name, TransactionCreateData}
use kromer.Database.Closed.{
  OwnerWritten, Rows, Keeps, keeps_rules, create-Keeps, fetch_by_name-Keeps, update_ownership-Keeps,
  verify_address-Keeps,
}
use kromer.Database.Externals.{Externals, make_v2_address}
use kromer.Database.Keeps.{
  Both, Safe, Both-Safe, Writes, Writes-check, Writes-update_returning, Keeps-update, Keeps-insert,
  Keeps-commit, Keeps-begin,
}
use kromer.Database.Names.{with_owner, insert_name, write_name, accepts_name}
use kromer.Database.Statements.{fits_text, tx, put_rows}
use kromer.Database.Transactions.{create_impl, create_in_transaction, insert_transaction, full_row}
use kromer.Database.Transactions.Audit.{ok_or-LivesAt}
use kromer.Database.Transactions.Booked.{held, held-push, held-moved}
use kromer.Database.Transactions.Conserves.{insert_transaction-Writes}
use kromer.Database.Wallets.{
  at_address, with_change, fits_wallet, insert_wallet, accepts_wallet, new_wallet, write_wallet,
  update_balance,
}
use kromer.Database.Wallets.Funds.{positive_lem}
use kromer.Database.Wallets.Verified.{fetch-LivesAt, verify_address-LivesAt}
use kromer.Exec.{from_sqlx, Outcome, ok, err, panic}
use kromer.Exec.Ensures.{
  Ensures, Ensures-pure, Ensures-bind, Ensures-ok_or, Ensures-throw_if, Ensures-map_err,
  Ensures-scoped, Keeps-bind, given,
}
use kromer.Routes.Keeps.{Always, scoped-Keeps, refuse_taken-Keeps, broadcast_event-Keeps}
use kromer.Routes.Names.{
  TransferNameRequest, purchase_data, register_in_transaction, name_register, name_transfer_data,
  hand_over, name_transfer_route,
}
use kromer.Routes.Overdraft.{recipient_of-Reads}
use kromer.Routes.Owners.{throw_if-Yields}
use kromer.Routes.Transactions.{TransactionDetails, transfer_in_transaction, transaction_create}

-- The address holds this much at least.
pub record Holds (a : String) (b : ℤ) (t : Tables) : Type 0 where
  pub least : b ≤ℤ held a t.wallets

-- What a change at one address does at another.
abbrev change_at : String → String → ℤ → ℤ
change_at a c d = if str_eq a c then d else pos 0

-- A payment that takes nothing from the address.
pub record Spares (a : String) (d : TransactionCreateData) : Type 0 where
  pub gain : pos 0 ≤ℤ d.amount
  pub spared : pos 0 ≤ℤ change_at a d.from (neg_ℤ d.amount)

-- A payment from elsewhere.
pub elsewhere-Spares :
    (a : String) (d : TransactionCreateData)
    → pos 0 ≤ℤ d.amount
    → str_eq a d.from ≡ false
    → Spares a d
elsewhere-Spares a d gain other = record { gain = gain; spared = rw other (omega arith) }

change-gain : (a c : String) (d : ℤ) → pos 0 ≤ℤ d → pos 0 ≤ℤ change_at a c d
change-gain a c d gain = either (str_eq a c)
  where
    either : (b : Bool) → pos 0 ≤ℤ (if b then d else pos 0)
    either true = gain
    either false = omega arith

still_held : (b h d : ℤ) → b ≤ℤ h → pos 0 ≤ℤ d → b ≤ℤ h +ℤ d
still_held b h d k m = omega (int_laws, k, m)

module _ {a : String} {b : ℤ} where
  new_wallet-Holds :
      (c hash : String) (s : Serials) (now : ℕ) (t : Tables)
      → Holds a b t
      → Writes (Holds a b) (insert_wallet c hash (pos 0) s now t)
  unfolding insert_wallet
  new_wallet-Holds c hash s now t h =
      Writes-check (Holds a b) (accepts_wallet s.wallet_id t.wallets c hash (pos 0)) _ _ (λ _.
        record {
          least =
              subst (λ m. b ≤ℤ m)
                (sym (held-push a t.wallets (new_wallet s.wallet_id now c hash (pos 0)) refl))
                h.least;
        })

  name-Holds :
      (o : Outcome SqlxError (Name × List Name)) (t : Tables)
      → Holds a b t
      → Writes (Holds a b) (put_rows (λ rows. record t { names = rows }) o)
  name-Holds (ok (r, rows)) t h = record { least = h.least }
  name-Holds (err e) t h = tt
  name-Holds panic t h = tt

  insert_name-Holds :
      (n o : String) (s : Serials) (now : ℕ) (t : Tables)
      → Holds a b t
      → Writes (Holds a b) (insert_name n o s now t)
  unfolding insert_name
  insert_name-Holds n o s now t h =
      Writes-check (Holds a b) (accepts_name s.name_id t.names n o) _ _
        (λ _. record { least = h.least })

  write_name-Holds :
      (fits : Name → Bool) (n : String) (f : ℕ → Name → Name) (now : ℕ) (t : Tables)
      → Holds a b t
      → Writes (Holds a b) (write_name fits n f now t)
  unfolding write_name
  write_name-Holds fits n f now t h = name-Holds _ t h

  pub owner-Holds : OwnerWritten (Holds a b)
  owner-Holds = record {
    at = λ n o now t h. write_name-Holds (λ _. fits_text 10 o) n (with_owner o) now t h;
  }

  pub Holds-Rows : Rows (Holds a b)
  Holds-Rows = record {
    wallet_inserted = new_wallet-Holds;
    name_inserted = insert_name-Holds;
    name_written = λ fits n f now t _ _. write_name-Holds fits n f now t;
  }

  write_wallet-Holds :
      (c : String) (d : ℤ) (now : ℕ) (t : Tables)
      → pos 0 ≤ℤ change_at a c d
      → Holds a b t
      → Writes (Holds a b) (write_wallet c (with_change d) now t)
  unfolding write_wallet
  write_wallet-Holds c d now t spared h =
      Writes-update_returning fits_wallet (at_address c) (with_change d) t.wallets (Holds a b) _
        λ v found. record {
          least =
              rw (held-moved a c d t.wallets v found)
                (still_held b (held a t.wallets) (change_at a c d) h.least spared);
        }

  module _ (C : Tables → Type 0) where
    update_balance-Holds :
        (c : String) (d : ℤ) (v : Wallet)
        → v.address ≡ c
        → pos 0 ≤ℤ change_at a c d
        → Keeps C (Holds a b) (update_balance v tx d)
    unfolding update_balance
    update_balance-Holds c d v lives spared =
        Keeps-update _ (λ now t h. write_wallet-Holds v.address d now t (rw lives spared) h)

    pub create_impl-Holds :
        (d : TransactionCreateData) → Spares a d → Keeps C (Holds a b) (create_impl d)
    unfolding create_impl
    create_impl-Holds d s = Ensures-bind _ _ (fetch-LivesAt d.from) λ o.
        Ensures-bind _ _ (ok_or-LivesAt d.from o _) λ sender. given λ from.
          Ensures-bind _ _ (fetch-LivesAt d.to) λ p.
            Ensures-bind _ _ (ok_or-LivesAt d.to p _) λ recipient. given λ to.
              Ensures-bind _ _
                (Ensures-map_err from_sqlx _
                  (update_balance-Holds d.from (neg_ℤ d.amount) sender from s.spared))
                λ _.
                  Ensures-bind _ _
                    (Ensures-map_err from_sqlx _ (
                      update_balance-Holds d.to d.amount recipient to
                        (change-gain a d.to d.amount s.gain)))
                    λ _. Ensures-map_err from_sqlx _ (
                      Keeps-insert _ _ λ s now t.
                        insert_transaction-Writes (Holds a b) (full_row d) s now t
                          (λ l h. record { least = h.least }))

-- The key, if there is one, is not that of the address.
abbrev pub Lacks : Externals → String → Option String → Type 0
Lacks x a none = Unit
Lacks x a (some key) = str_eq a (make_v2_address x key) ≡ false
