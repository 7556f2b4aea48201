-- ===== src/Routes/Overdraft.antt =====
-- `transaction_create` of src/routes/krist/transactions.rs and the sign of the balances.
pub mod Names
pub mod Messages
pub mod Requests
use mathlib.Core.Path.{subst, sym}
use kromer.Prelude.{
  ℕ, ℤ, pos, ◌+ℤ◌, neg_ℤ, ◌≤ℤ◌, String, ◌≡◌, refl, Option, some, find, Bool, false, ltb_ℤ, ◌∙◌,
}
use kromer.Errors.{SqlxError, DatabaseError}
use kromer.Errors.Krist.{KristError, krist_of_database}
use kromer.Database.{Tables, Wallet, TransactionCreateData}
use kromer.Database.Closed.{Keeps, keeps_rules}
use kromer.Database.Externals.{Externals}
use kromer.Database.Keeps.{
  Both, Safe, Both-Safe, Writes, Writes-update_returning, Keeps-commit, Keeps-update, Keeps-insert,
}
use kromer.Database.Names.{fetch_by_name, owner}
use kromer.Database.Statements.{tx, insert}
use kromer.Database.Transactions.{
  create_impl, create_in_transaction, full_row, insert_transaction, next_transaction,
}
use kromer.Database.Transactions.Conserves.{insert_transaction-Writes}
use kromer.Database.Transactions.NameData.{TransactionNameData}
use kromer.Database.Wallets.{
  at_address, with_change, fits_wallet, fetch_by_address, write_wallet, update_balance,
}
use kromer.Database.Wallets.Funds.{
  Funded, borne-Funded, gained-Funded, find-Funded, bears_nothing, enough_lem, positive_lem,
}
use kromer.Database.Wallets.Runs.{address-of-find}
use kromer.Database.Wallets.Total.{UniqueAddresses, update_where-UniqueAddresses}
use kromer.Exec.{krist_from_sqlx, from_sqlx, ok, err, panic, World, current}
use kromer.Exec.Ensures.{
  given, After, Ensures, Ensures-weaken, Ensures-after, Ensures-pure, Ensures-bind, Ensures-scoped,
  Ensures-map_err, Ensures-ok_or, Ensures-throw_if, Keeps-bind,
}
use kromer.Routes.Funds.{Solvent, Found, Has, fetch_by_address-Found, verify_address-Has}
use kromer.Routes.Keeps.{broadcast_event-Keeps}
use kromer.Routes.Owners.{ok_or-Yields, throw_if-Yields}
use kromer.Routes.Transactions.{
  TransactionDetails, owner_of_name, wallet_at, recipient_of, transfer_in_transaction,
  transaction_create,
}
use kromer.Database.Stays.{begin-Starts, same_state}

-- The look-ups of the recipient read only.
module _ {C W : Tables → Type 0} where
  fetch_by_address-Reads : (a : String) → Keeps C W (fetch_by_address tx a)
  unfolding fetch_by_address
  fetch_by_address-Reads a = search keeps_rules

  pub recipient_of-Reads :
      (b : Bool) (d : TransactionNameData) (to : String) → Keeps C W (recipient_of b d to)
  unfolding owner_of_name wallet_at fetch_by_name owner
  recipient_of-Reads b d to = search (keeps_rules, fetch_by_address-Reads) depth 14

-- The payer's wallet, if there is one, bears the debit.
pub record Payable (d : TransactionCreateData) (t : Tables) : Type 0 where
  pub solvent : Solvent t
  pub bears :
      (v : Wallet)
      → find (at_address d.from) t.wallets ≡ some v
      → pos 0 ≤ℤ v.balance +ℤ neg_ℤ d.amount

-- This wallet is there, and bears the debit.
record Bears (d : TransactionCreateData) (v : Wallet) (t : Tables) : Type 0 where
  pub has : Has v t
  pub enough : pos 0 ≤ℤ v.balance +ℤ neg_ℤ d.amount

debit-Writes :
    (d : TransactionCreateData) (v : Wallet) (now : ℕ) (t : Tables)
    → Bears d v t
    → Writes Solvent (write_wallet v.address (with_change (neg_ℤ d.amount)) now t)
unfolding write_wallet
debit-Writes d v now t h =
    Writes-update_returning fits_wallet (at_address v.address) (with_change (neg_ℤ d.amount))
      t.wallets Solvent _
      λ r found. record {
        unique =
            update_where-UniqueAddresses (with_change (neg_ℤ d.amount)) (λ w. refl) v.address
              t.wallets h.has.solvent.unique;
        funded =
            borne-Funded v.address (neg_ℤ d.amount) t.wallets v h.has.solvent.unique h.has.found
              h.enough h.has.solvent.funded;
      }

credit-Writes :
    (a : String) (amount : ℤ) (now : ℕ) (t : Tables)
    → pos 0 ≤ℤ amount
    → Solvent t
    → Writes Solvent (write_wallet a (with_change amount) now t)
unfolding write_wallet
credit-Writes a amount now t k h =
    Writes-update_returning fits_wallet (at_address a) (with_change amount) t.wallets Solvent _
      λ r found. record {
        unique = update_where-UniqueAddresses (with_change amount) (λ w. refl) a t.wallets h.unique;
        funded = gained-Funded a amount t.wallets k h.funded;
      }

module _ (d : TransactionCreateData) (gain : pos 0 ≤ℤ d.amount) where
  Found-Bears :
      (v : Wallet) (o : Option Wallet) (t : Tables)
      → Payable d t × Found d.from o t
      → o ≡ some v
      → Bears d v t
  Found-Bears v o t h same =
      let here : find (at_address d.from) t.wallets ≡ some v = h.1.found ∙ same in
      let at : v.address ≡ d.from = address-of-find d.from t.wallets v here in
      record {
        has = record {
          solvent = h.0.solvent;
          found = subst (λ a. find (at_address a) t.wallets ≡ some v) (sym at) here;
        };
        enough = h.0.bears v here;
      }

  debit :
      (sender : Wallet)
      → Ensures
          (Both Solvent (Bears d sender))
          (λ _. Both Solvent Solvent)
          (Safe Solvent)
          (update_balance sender tx (neg_ℤ d.amount))
  unfolding update_balance
  debit sender = Keeps-update _ (λ now t h. debit-Writes d sender now t h)

  credit : (recipient : Wallet) → Keeps Solvent Solvent (update_balance recipient tx d.amount)
  unfolding update_balance
  credit recipient =
      Keeps-update _ (λ now t h. credit-Writes recipient.address d.amount now t gain h)

  record_it : Keeps Solvent Solvent (insert tx next_transaction (insert_transaction (full_row d)))
  record_it = Keeps-insert _ _ λ s now t.
      insert_transaction-Writes Solvent (full_row d) s now t
        (λ l h. record { unique = h.unique; funded = h.funded })

  -- A payment that the payer bears, whoever receives it.
  pub create_impl-Solvent :
      Ensures (Both Solvent (Payable d)) (λ _. Both Solvent Solvent) (Safe Solvent) (create_impl d)
  unfolding create_impl
  create_impl-Solvent = Ensures-bind _ _ (fetch_by_address-Found (λ t h. h.solvent) d.from) λ o.
      Ensures-bind _ _
        (Ensures-weaken _
          (λ sender w h. record {
            outside = h.0.outside;
            inside = Found-Bears sender o (current w) h.0.inside h.1;
          })
          (λ w h. h) (ok_or-Yields o _ Both-Safe))
        λ sender. Keeps-bind _ _ (fetch_by_address-Reads d.to) λ p.
          Keeps-bind _ _ (Ensures-ok_or p _ Both-Safe) λ recipient.
            Ensures-bind _ _ (Ensures-map_err from_sqlx _ (debit sender)) λ _.
              Keeps-bind _ _ (Ensures-map_err from_sqlx _ (credit recipient))
                λ _. Ensures-map_err from_sqlx _ record_it

-- A wallet that the test of its balance let through, as it stands.
pub Has-Payable :
    (v : Wallet) (d : TransactionCreateData) (t : Tables)
    → d.from ≡ v.address
    → ltb_ℤ v.balance d.amount ≡ false
    → Has v t
    → Payable d t
Has-Payable v d t from enough h = record {
  solvent = h.solvent;
  bears = λ u found.
      let again : find (at_address v.address) t.wallets ≡ some u =
        subst (λ a. find (at_address a) t.wallets ≡ some u) from found in
      let there : find (at_address v.address) t.wallets ≡ some v = h.found in
      let same : v ≡ u = cc in
      subst (λ u. pos 0 ≤ℤ u.balance +ℤ neg_ℤ d.amount) same (enough_lem v.balance d.amount enough);
}

-- What is free, any wallet bears.
pub free-Payable :
    (d : TransactionCreateData) (t : Tables) → d.amount ≡ pos 0 → Solvent t → Payable d t
free-Payable d t free h = record {
  solvent = h;
  bears =
      λ v found. rw free (bears_nothing v.balance (find-Funded d.from t.wallets v found h.funded));
}

-- A payment after the test of the payer's balance.
pub paid :
    (v : Wallet) (d : TransactionCreateData)
    → pos 0 ≤ℤ d.amount
    → d.from ≡ v.address
    → ltb_ℤ v.balance d.amount ≡ false
    → Ensures (Both Solvent (Has v)) (λ _. Both Solvent Solvent) (Safe Solvent) (create_impl d)
paid v d gain from enough =
    Ensures-after _
      (λ w h. record {
        outside = h.outside;
        inside = Has-Payable v d (current w) from enough h.inside;
      })
      (create_impl-Solvent d gain)

module _ (x : Externals) (details : TransactionDetails) where
  transfer_in_transaction-Solvent :
      (amount : ℤ)
      → pos 0 ≤ℤ amount
      → Ensures
          (Both Solvent Solvent)
          (λ _. Both Solvent Solvent)
          (Safe Solvent)
          (transfer_in_transaction x details amount)
  unfolding transfer_in_transaction create_in_transaction
  transfer_in_transaction-Solvent amount gain =
      Ensures-bind _ _
        (Ensures-map_err krist_of_database _ (verify_address-Has x details.private_key))
        λ v. Keeps-bind _ _ (Ensures-throw_if _ _ Both-Safe) λ _.
          Keeps-bind _ _ (recipient_of-Reads _ _ _) λ recipient.
            Ensures-bind _ _ (throw_if-Yields _ _ Both-Safe) λ _. given λ enough.
              Keeps-bind _ _ (Ensures-throw_if _ _ Both-Safe)
                λ _. Ensures-map_err krist_of_database _ (paid v.wallet _ gain refl enough)

  pub transaction_create-Solvent :
      Ensures (Safe Solvent) (λ _. Safe Solvent) (Safe Solvent) (transaction_create x details)
  unfolding transaction_create
  transaction_create-Solvent =
      Ensures-scoped _ (λ a w h. record { outside = h.outside })
        (λ w h. record { outside = h.outside })
        (Keeps-bind _ _ (Ensures-throw_if _ _ same_state) λ _.
          Ensures-bind _ _ (throw_if-Yields _ _ same_state) λ _. given λ positive.
            Ensures-bind _ _ (Ensures-map_err krist_from_sqlx _ begin-Starts) λ _.
              Keeps-bind _ _ (transfer_in_transaction-Solvent _ (positive_lem _ positive)) λ r.
                Keeps-bind _ _ (Ensures-map_err krist_from_sqlx _ Keeps-commit) λ _.
                  Keeps-bind _ _ (broadcast_event-Keeps _)
                    λ _. Ensures-pure (λ _. Both Solvent Solvent) _ (λ w h. h))
