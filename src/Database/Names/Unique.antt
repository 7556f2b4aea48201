-- ===== src/Database/Names/Unique.antt =====
-- The writes of src/database/name.rs and the unique index on the name, with the tables that
-- `create_impl` does not write.
use kromer.Prelude.{
  ℕ, ℤ, pos, String, str_eq, eq_iff, ◌≡◌, refl, none, List, [], ◌∷◌, push, find, update_where, Bool,
  true, false, arith, Bool-cases, inl, inr,
}
use kromer.Errors.{SqlxError}
use kromer.Database.{Name, Wallet, Tables, Serials, Transaction, TransactionCreateData}
use kromer.Database.Closed.{Closed, Keeps, keeps_rules}
use kromer.Database.Keeps.{
  Writes, Writes-update_returning, Writes-check, Keeps-update, Keeps-insert, Keeps-query,
}
use kromer.Database.Names.{with_owner, named, accepts_name, insert_name, write_name}
use kromer.Database.Statements.{tx, insert, put_rows}
use kromer.Database.Transactions.{create_impl, full_row, insert_transaction, next_transaction}
use kromer.Database.Transactions.Conserves.{insert_transaction-Writes}
use kromer.Database.Wallets.{
  insert_wallet, accepts_wallet, write_wallet, update_balance, fetch_by_address,
}
use kromer.Exec.{from_sqlx, Outcome, ok, err, panic}
use kromer.Exec.Ensures.{Ensures-map_err}

abbrev pub UniqueNames : List Name → Type 0
UniqueNames [] = Unit
UniqueNames (r ∷ rs) = (find (named r.name) rs ≡ none) × UniqueNames rs

pub record NamesUnique (t : Tables) : Type 0 where
  pub unique : UniqueNames t.names

module _ (f : Name → Name) (keeps : (r : Name) → (f r).name ≡ r.name) (n : String) where
  find-update_where-named :
      (b : String) (rs : List Name)
      → find (named b) rs ≡ none
      → find (named b) (update_where (named n) f rs) ≡ none
  find-update_where-named b [] h = refl
  find-update_where-named b (r ∷ rs) h = ground (arith, keeps r, find-update_where-named b rs)

  update_where-UniqueNames :
      (rs : List Name) → UniqueNames rs → UniqueNames (update_where (named n) f rs)
  update_where-UniqueNames [] u = tt
  update_where-UniqueNames (r ∷ rs) u = elim (Bool-cases (str_eq r.name n)) [
    | inl here ↦
        rw (here, keeps r) (find-update_where-named r.name rs u.0, update_where-UniqueNames rs u.1)
    | inr there ↦ rw there (find-update_where-named r.name rs u.0, update_where-UniqueNames rs u.1)
  ]

find-push-named :
    (b : String) (rs : List Name) (r : Name)
    → find (named b) rs ≡ none
    → str_eq r.name b ≡ false
    → find (named b) (push rs r) ≡ none
find-push-named b [] r h e = rw e
find-push-named b (v ∷ rs) r h e = ground (arith, find-push-named b rs r)

push-UniqueNames :
    (rs : List Name) (r : Name)
    → UniqueNames rs
    → find (named r.name) rs ≡ none
    → UniqueNames (push rs r)
push-UniqueNames [] r u h = (refl, tt)
push-UniqueNames (v ∷ rs) r u h = (
  find-push-named v.name rs r u.0 (ground (arith, eq_iff v.name r.name, eq_iff r.name v.name)),
  push-UniqueNames rs r u.1 (ground arith),
)

accepted_is_new :
    (id : ℕ) (rs : List Name) (n o : String)
    → accepts_name id rs n o ≡ true
    → find (named n) rs ≡ none
unfolding accepts_name
accepted_is_new id rs n o e = ground arith

-- What does not look at the wallets and the transactions is kept where money moves.
module _ (W : Tables → Type 0)
    (wallets : (t : Tables) (l : List Wallet) → W t → W (record t { wallets = l }))
    (transactions : (t : Tables) (l : List Transaction)
      → W t
      → W (record t { transactions = l })) where
  write_wallet-Leaves :
      (o : Outcome SqlxError (Wallet × List Wallet)) (t : Tables)
      → W t
      → Writes W (put_rows (λ rows. record t { wallets = rows }) o)
  write_wallet-Leaves (ok (r, rows)) t h = wallets t rows h
  write_wallet-Leaves (err e) t h = tt
  write_wallet-Leaves panic t h = tt

  module _ (C : Tables → Type 0) where
    update_balance-Leaves : (w : Wallet) (d : ℤ) → Keeps C W (update_balance w tx d)
    unfolding update_balance write_wallet
    update_balance-Leaves w d = Keeps-update _ (λ now t h. write_wallet-Leaves _ t h)

    record-Leaves :
        (d : TransactionCreateData)
        → Keeps C W (insert tx next_transaction (insert_transaction (full_row d)))
    record-Leaves d =
        Keeps-insert _ _
          λ s now t h. insert_transaction-Writes W (full_row d) s now t (λ l. transactions t l) h

    found-Leaves : (a : String) → Keeps C W (fetch_by_address tx a)
    unfolding fetch_by_address
    found-Leaves a = Ensures-map_err from_sqlx _ (Keeps-query tx _)

    pub create_impl-Leaves : (d : TransactionCreateData) → Keeps C W (create_impl d)
    unfolding create_impl
    create_impl-Leaves d =
        search (keeps_rules, found-Leaves, update_balance-Leaves, record-Leaves) depth 12

insert_wallet-NamesUnique :
    (a hash : String) (s : Serials) (now : ℕ) (t : Tables)
    → NamesUnique t
    → Writes NamesUnique (insert_wallet a hash (pos 0) s now t)
unfolding insert_wallet
insert_wallet-NamesUnique a hash s now t h =
    Writes-check NamesUnique (accepts_wallet s.wallet_id t.wallets a hash (pos 0)) _ _
      λ _. record { unique = h.unique }

insert_name-NamesUnique :
    (n o : String) (s : Serials) (now : ℕ) (t : Tables)
    → NamesUnique t
    → Writes NamesUnique (insert_name n o s now t)
unfolding insert_name
insert_name-NamesUnique n o s now t h =
    Writes-check NamesUnique (accepts_name s.name_id t.names n o) _ _ λ fit. record {
      unique = push-UniqueNames t.names _ h.unique (accepted_is_new s.name_id t.names n o fit);
    }

write_name-NamesUnique :
    (fits : Name → Bool) (n : String) (f : ℕ → Name → Name) (now : ℕ) (t : Tables)
    → ((r : Name) → (f now r).name ≡ r.name)
    → NamesUnique t
    → Writes NamesUnique (write_name fits n f now t)
unfolding write_name
write_name-NamesUnique fits n f now t same h =
    Writes-update_returning fits (named n) (f now) t.names NamesUnique _
      λ r found. record { unique = update_where-UniqueNames (f now) same n t.names h.unique }

pub NamesUnique-Closed : Closed NamesUnique
NamesUnique-Closed = record {
  moves = record {
    rows = record {
      wallet_inserted = insert_wallet-NamesUnique;
      name_inserted = insert_name-NamesUnique;
      name_written = λ fits n f now t same _. write_name-NamesUnique fits n f now t same;
    };
    money_moved = λ C.
        create_impl-Leaves NamesUnique (λ t l h. record { unique = h.unique })
          (λ t l h. record { unique = h.unique }) C;
  };
  owner_written = record {
    at = λ n o now t. write_name-NamesUnique _ n (with_owner o) now t (λ r. refl);
  };
}
