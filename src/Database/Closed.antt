-- ===== src/Database/Closed.antt =====
-- Predicates on the tables that every write of the program keeps, and the operations of the database
-- layer that keep them.
use kromer.Prelude.{refl, ℕ, pos, String, ◌≡◌, Option, none, some, Bool}
use kromer.Database.{Tables, Serials, Wallet, Name, TransactionCreateData}
use kromer.Database.Externals.{Externals}
use kromer.Database.Statements.{Executor, pool, tx, fits_text}
use kromer.Database.Wallets.{
  insert_wallet, create_wallet, verify_address, fetch_by_address, acquire, or_create,
}
use kromer.Database.Names.{
  insert_name, write_name, with_metadata, with_owner, update_metadata, fetch_by_name, owner, create,
  update_ownership_in_transaction, ctrl_update_metadata, NameDataUpdateBody,
}
use kromer.Database.Transactions.{create_impl, create_in_transaction}
use kromer.Database.Keeps.{
  Both, Safe, Writes, Both-Safe, Keeps-trip, Keeps-begin, Keeps-commit, Keeps-query, Keeps-update,
  Keeps-insert, Keeps-update_pool, Keeps-insert_pool,
}
use kromer.Exec.{from_sqlx, Exec}
use kromer.Exec.Ensures.{
  Ensures, Keeps-pure, Ensures-throw, Ensures-ok_or, Ensures-if, Ensures-throw_if, Ensures-bind,
  Keeps-bind, Ensures-map_err, Ensures-scoped,
}

-- `Good` survives each row that is written outside a payment.
pub record Rows (Good : Tables → Type 0) : Type 1 where
  pub wallet_inserted :
      (a hash : String) (s : Serials) (now : ℕ) (t : Tables)
      → Good t
      → Writes Good (insert_wallet a hash (pos 0) s now t)
  pub name_inserted :
      (n o : String) (s : Serials) (now : ℕ) (t : Tables)
      → Good t
      → Writes Good (insert_name n o s now t)
  pub name_written :
      (fits : Name → Bool) (n : String) (f : ℕ → Name → Name) (now : ℕ) (t : Tables)
      → ((r : Name) → (f now r).name ≡ r.name)
      → ((r : Name) → (f now r).owner ≡ r.owner)
      → Good t
      → Writes Good (write_name fits n f now t)

-- `Good` survives each write but the change of a name's owner.
pub record Moves (Good : Tables → Type 0) : Type 1 where
  pub rows : Rows Good
  pub money_moved :
      (C : Tables → Type 0) (d : TransactionCreateData)
      → Ensures (Both C Good) (λ _. Both C Good) (Safe C) (create_impl d)

-- `Good` survives the change of a name's owner.
pub record OwnerWritten (Good : Tables → Type 0) : Type 0 where
  pub at :
      (n o : String) (now : ℕ) (t : Tables)
      → Good t
      → Writes Good (write_name (λ _. fits_text 10 o) n (with_owner o) now t)

-- `Good` survives each write that the operations below make.
pub record Closed (Good : Tables → Type 0) : Type 1 where
  pub moves : Moves Good
  pub owner_written : OwnerWritten Good

abbrev pub Keeps : {E A : Type 0} → (C W : Tables → Type 0) → Exec E A → Type 0
Keeps C W = Ensures (Both C W) (λ _. Both C W) (Safe C)

pub ruleset keeps_rules = (
  Both-Safe, Keeps-pure, Ensures-throw, Ensures-ok_or, Ensures-if, Ensures-throw_if, Keeps-bind,
  Ensures-map_err, Keeps-trip, Keeps-query,
)

module _ {Good : Tables → Type 0} (good : Rows Good) (x : Externals) where
  module _ (C : Tables → Type 0) where
    pub fetch_by_address-Keeps : (ex : Executor) (a : String) → Keeps C Good (fetch_by_address ex a)
    unfolding fetch_by_address
    fetch_by_address-Keeps ex a = search keeps_rules

    or_create-Keeps : (a hash : String) (o : Option Wallet) → Keeps C Good (or_create x tx a hash o)
    unfolding create_wallet
    or_create-Keeps a hash none =
        Ensures-map_err from_sqlx _ (Keeps-insert _ _ (good.wallet_inserted a hash))
    or_create-Keeps a hash (some w) = search keeps_rules

    pub verify_address-Keeps : (key : String) → Keeps C Good (verify_address x tx key)
    unfolding verify_address acquire
    verify_address-Keeps key = search (keeps_rules, fetch_by_address-Keeps, or_create-Keeps)

    pub fetch_by_name-Keeps : (ex : Executor) (n : String) → Keeps C Good (fetch_by_name ex n)
    unfolding fetch_by_name
    fetch_by_name-Keeps ex n = search keeps_rules

    pub owner-Keeps : (n : Name) → Keeps C Good (owner n)
    unfolding owner
    owner-Keeps n = search (keeps_rules, fetch_by_address-Keeps)

    pub create-Keeps : (n o : String) → Keeps C Good (create tx n o)
    unfolding create
    create-Keeps n o = Ensures-map_err from_sqlx _ (Keeps-insert _ _ (good.name_inserted n o))

  or_create_pool-Keeps :
      (a hash : String) (o : Option Wallet) → Keeps Good Good (or_create x pool a hash o)
  unfolding create_wallet
  or_create_pool-Keeps a hash none =
      Ensures-map_err from_sqlx _ (Keeps-insert_pool _ _ (good.wallet_inserted a hash))
  or_create_pool-Keeps a hash (some w) = search keeps_rules

  pub verify_address_pool-Keeps : (key : String) → Keeps Good Good (verify_address x pool key)
  unfolding verify_address acquire
  verify_address_pool-Keeps key =
      search (keeps_rules, fetch_by_address-Keeps Good, or_create_pool-Keeps)

  update_metadata-Keeps : (n m : String) → Keeps Good Good (update_metadata pool n m)
  unfolding update_metadata
  update_metadata-Keeps n m = Ensures-map_err from_sqlx _ (
      Keeps-update_pool _ (λ now t.
        good.name_written (λ _. fits_text 255 m) n (with_metadata m) now t (λ r. refl) (λ r. refl)))

  pub ctrl_update_metadata-Keeps :
      (n : String) (body : NameDataUpdateBody) → Keeps Good Good (ctrl_update_metadata x n body)
  unfolding ctrl_update_metadata
  ctrl_update_metadata-Keeps n body =
      search
        (keeps_rules, verify_address_pool-Keeps, fetch_by_name-Keeps Good, update_metadata-Keeps)
        depth 14

module _ {Good : Tables → Type 0} (moves : Moves Good) (C : Tables → Type 0) where
  pub create_in_transaction-Keeps :
      (d : TransactionCreateData) → Keeps C Good (create_in_transaction d)
  unfolding create_in_transaction
  create_in_transaction-Keeps d = moves.money_moved C d

module _ {Good : Tables → Type 0} (owner_written : OwnerWritten Good) (C : Tables → Type 0) where
  pub update_ownership-Keeps :
      (n : Name) (o : String) → Keeps C Good (update_ownership_in_transaction n o)
  unfolding update_ownership_in_transaction
  update_ownership-Keeps n o =
      Ensures-map_err from_sqlx _ (Keeps-update _ (owner_written.at n.name o))
