-- ===== src/Database/Sound.antt =====
-- The operations of the database layer do not panic, and of the errors of src/errors/database.rs they
-- end with those that the routes can answer with.
use kromer.Prelude.{ℕ, ℤ, pos, String, Option, none, some, Bool}
use kromer.Errors.{SqlxError, DatabaseError}
use kromer.Errors.Krist.{KristError, krist_of_database}
use kromer.Database.{Tables, Serials, Wallet, Name, Transaction, TransactionCreateData}
use kromer.Database.Externals.{Externals}
use kromer.Database.Names.{
  NameDataUpdateBody, named, fetch_by_name, owner, insert_name, create, write_name, with_metadata,
  with_owner, accepts_name, update_metadata, update_ownership_in_transaction, ctrl_update_metadata,
}
use kromer.Database.Statements.{Executor, pool, tx, fits_text, insert}
use kromer.Database.Transactions.{
  create_impl, create_in_transaction, insert_transaction, full_row, next_transaction,
  accepts_transaction,
}
use kromer.Database.Wallets.{
  at_address, fits_wallet, fetch_by_address, verify_address, acquire, or_create, create_wallet,
  insert_wallet, accepts_wallet, update_balance, write_wallet, with_change,
}
use kromer.Exec.{krist_from_sqlx, from_sqlx, Exec, map_err}
use kromer.Exec.Sound.{
  Fine, Sound, Any, Converts, Sound-pure, Sound-map_err, Sound-query, Sound-update, Sound-insert,
  accepted-Fine, update_returning-Fine, sound_rules,
}

-- An error that the routes have an answer to.
abbrev pub Reported : DatabaseError → Type 0
Reported (DatabaseError.player e) = ⊥
Reported _ = Unit

converted : (e : DatabaseError) → Reported e → Converts {F = KristError} Any (krist_of_database e)
unfolding krist_of_database
converted (DatabaseError.sqlx e) h = tt
converted (DatabaseError.name e) h = tt
converted (DatabaseError.player e) h = absurd h
converted (DatabaseError.transaction e) h = tt
converted (DatabaseError.wallet e) h = tt
converted (DatabaseError.generic e) h = tt

module _ {A : Type 0} where
  -- `?` on an error of sqlx, in a function of the database layer and in a handler.
  pub Sound-sqlx : (m : Exec SqlxError A) → Sound Any m → Sound Reported (map_err from_sqlx m)
  Sound-sqlx m hm = Sound-map_err _ m (λ e v. tt) hm

  pub Sound-sqlx_krist :
      (m : Exec SqlxError A) → Sound Any m → Sound Any (map_err krist_from_sqlx m)
  Sound-sqlx_krist m hm = Sound-map_err _ m (λ e v. tt) hm

  -- An error of the database layer in a handler.
  pub Sound-to_krist :
      (m : Exec DatabaseError A) → Sound Reported m → Sound Any (map_err krist_of_database m)
  Sound-to_krist m hm = Sound-map_err krist_of_database m converted hm

pub ruleset handler_rules = (sound_rules, Sound-sqlx, Sound-sqlx_krist, Sound-to_krist)

pub fetch_by_address-Sound : (ex : Executor) (a : String) → Sound Reported (fetch_by_address ex a)
unfolding fetch_by_address
fetch_by_address-Sound ex a = Sound-sqlx _ (Sound-query ex _ (λ t. tt))

pub fetch_by_name-Sound : (ex : Executor) (n : String) → Sound Reported (fetch_by_name ex n)
unfolding fetch_by_name
fetch_by_name-Sound ex n = Sound-sqlx _ (Sound-query ex _ (λ t. tt))

pub owner-Sound : (n : Name) → Sound Reported (owner n)
unfolding owner
owner-Sound n = search (handler_rules, fetch_by_address-Sound)

insert_wallet-Fine :
    (a hash : String) (b : ℤ) (s : Serials) (now : ℕ) (t : Tables)
    → Fine Any (insert_wallet a hash b s now t)
unfolding insert_wallet
insert_wallet-Fine a hash b s now t =
    accepted-Fine (accepts_wallet s.wallet_id t.wallets a hash b) _ _

insert_name-Fine :
    (n o : String) (s : Serials) (now : ℕ) (t : Tables) → Fine Any (insert_name n o s now t)
unfolding insert_name
insert_name-Fine n o s now t = accepted-Fine (accepts_name s.name_id t.names n o) _ _

insert_transaction-Fine :
    (row : ℕ → ℕ → Transaction) (s : Serials) (now : ℕ) (t : Tables)
    → Fine Any (insert_transaction row s now t)
unfolding insert_transaction
insert_transaction-Fine row s now t =
    let r = row s.transaction_id now in accepted-Fine (accepts_transaction r r.from) _ _

module _ (x : Externals) where
  or_create-Sound :
      (ex : Executor) (a hash : String) (o : Option Wallet)
      → Sound Reported (or_create x ex a hash o)
  unfolding create_wallet
  or_create-Sound ex a hash none =
      Sound-sqlx _ (Sound-insert ex _ _ (insert_wallet-Fine a hash (pos 0)))
  or_create-Sound ex a hash (some v) = Sound-pure v

  acquire-Sound : (ex : Executor) → Sound Any (acquire ex)
  unfolding acquire
  acquire-Sound pool = search sound_rules
  acquire-Sound tx = search sound_rules

  pub verify_address-Sound :
      (ex : Executor) (key : String) → Sound Reported (verify_address x ex key)
  unfolding verify_address
  verify_address-Sound ex key =
      search (handler_rules, acquire-Sound, fetch_by_address-Sound, or_create-Sound) depth 10

write_wallet-Fine :
    (a : String) (d : ℤ) (now : ℕ) (t : Tables) → Fine Any (write_wallet a (with_change d) now t)
unfolding write_wallet
write_wallet-Fine a d now t =
    update_returning-Fine fits_wallet (at_address a) (with_change d)
      (λ rows. record t { wallets = rows }) t.wallets

write_name-Fine :
    (fits : Name → Bool) (n : String) (f : ℕ → Name → Name) (now : ℕ) (t : Tables)
    → Fine Any (write_name fits n f now t)
unfolding write_name
write_name-Fine fits n f now t =
    update_returning-Fine fits (named n) (f now) (λ rows. record t { names = rows }) t.names

update_balance-Sound : (v : Wallet) (d : ℤ) → Sound Any (update_balance v tx d)
unfolding update_balance
update_balance-Sound v d = Sound-update tx _ (write_wallet-Fine v.address d)

record_it-Sound :
    (d : TransactionCreateData)
    → Sound Any (insert tx next_transaction (insert_transaction (full_row d)))
record_it-Sound d = Sound-insert tx _ _ (insert_transaction-Fine (full_row d))

pub create_impl-Sound : (d : TransactionCreateData) → Sound Reported (create_impl d)
unfolding create_impl
create_impl-Sound d =
    search (handler_rules, fetch_by_address-Sound, update_balance-Sound, record_it-Sound) depth 16

pub create_in_transaction-Sound :
    (d : TransactionCreateData) → Sound Reported (create_in_transaction d)
unfolding create_in_transaction
create_in_transaction-Sound d = create_impl-Sound d

pub create-Sound : (n o : String) → Sound Reported (create tx n o)
unfolding create
create-Sound n o = Sound-sqlx _ (Sound-insert tx _ _ (insert_name-Fine n o))

pub update_ownership-Sound :
    (n : Name) (o : String) → Sound Reported (update_ownership_in_transaction n o)
unfolding update_ownership_in_transaction
update_ownership-Sound n o =
    Sound-sqlx _ (Sound-update tx _ (write_name-Fine (λ _. fits_text 10 o) n.name (with_owner o)))

update_metadata-Sound : (n m : String) → Sound Reported (update_metadata pool n m)
unfolding update_metadata
update_metadata-Sound n m =
    Sound-sqlx _ (Sound-update pool _ (write_name-Fine (λ _. fits_text 255 m) n (with_metadata m)))

pub ctrl_update_metadata-Sound :
    (x : Externals) (n : String) (body : NameDataUpdateBody)
    → Sound Reported (ctrl_update_metadata x n body)
unfolding ctrl_update_metadata
ctrl_update_metadata-Sound x n body =
    search (handler_rules, verify_address-Sound x, fetch_by_name-Sound, update_metadata-Sound) depth
      16
