-- ===== src/Database/Players.antt =====
-- The queries of src/database/player.rs.
use kromer.Prelude.{
  ℕ, String, str_eq, Option, none, some, List, [], ◌∷◌, Bool, true, false, ◌&&◌, ◌||◌,
  if◌then◌else◌, ◌==◌, length, find, select, push,
}
use kromer.Errors.{database, DatabaseError}
use kromer.Database.{Player, Wallet, Tables, Serials}
use kromer.Database.Statements.{
  Executor, Written, query, update, insert, page, clamp, fits_text, update_returning, put_rows,
}
use kromer.Exec.{ok, err, Exec, sqlx_to_database}
use kromer.Prelude.{ℤ}

abbrev pub has_id : ℕ → Player → Bool
has_id id p = p.id == id

unfoldable pub fetch_by_id : Executor → ℕ → Exec DatabaseError (Option Player)
fetch_by_id ex id = sqlx_to_database (query ex (λ t. ok (find (has_id id) t.players)))

unfoldable pub fetch_all : Executor → ℤ → ℤ → Exec DatabaseError (List Player)
fetch_all ex limit offset = sqlx_to_database (query ex (λ t. page (clamp limit) offset t.players))

unfoldable pub total_count : Executor → Exec DatabaseError ℕ
total_count ex = sqlx_to_database (query ex (λ t. ok (length t.players)))

-- The primary key, and the width of the name.
unfoldable pub accepts_player : List Player → ℕ → String → Bool
unfolding fits_text
accepts_player players id name =
    fits_text 16 name && (elim (find (has_id id) players) [ none ↦ true | some _ ↦ false ])

unfoldable pub insert_player : ℕ → String → Serials → ℕ → Tables → Written Player
unfolding accepts_player
insert_player id name s now t =
    let p : Player = record { id = id; name = name; owned_wallets = [] } in
    if accepts_player t.players id name
    then ok (p, record t { players = push t.players p })
    else err database

unfoldable pub create : Executor → ℕ → String → Exec DatabaseError Player
create ex uuid name = sqlx_to_database (insert ex (λ s. s) (insert_player uuid name))

-- `array_append(owned_wallets, $2)`
abbrev pub with_wallet : ℕ → Player → Player
with_wallet id p = record p { owned_wallets = push p.owned_wallets id }

unfoldable pub write_player : ℕ → (Player → Player) → ℕ → Tables → Written Player
unfolding update_returning
write_player id f now t =
    put_rows (λ rows. record t { players = rows })
      (update_returning (λ _. true) (has_id id) f t.players)

unfoldable pub add_wallet_to_owned : Player → Executor → Wallet → Exec DatabaseError Player
add_wallet_to_owned self ex wallet =
    sqlx_to_database (update ex (write_player self.id (with_wallet wallet.id)))

abbrev pub by_name : String → Player → Bool
by_name n p = str_eq p.name n

unfoldable pub fetch_by_name : Executor → String → Exec DatabaseError (Option Player)
fetch_by_name ex n = sqlx_to_database (query ex (λ t. ok (find (by_name n) t.players)))

-- `wallet.id = ANY(player.owned_wallets)`
abbrev pub contains_id : List ℕ → ℕ → Bool
contains_id [] id = false
contains_id (i ∷ is) id = (i == id) || contains_id is id

abbrev pub owned_in : Option Player → List Wallet → List Wallet
owned_in none wallets = []
owned_in (some p) wallets = select (λ (w : Wallet). contains_id p.owned_wallets w.id) wallets

-- The join with the player's row, as it is when the query runs.
unfoldable pub owned_wallets : Player → Executor → Exec DatabaseError (List Wallet)
owned_wallets self ex =
    sqlx_to_database (query ex (λ t. ok (owned_in (find (has_id self.id) t.players) t.wallets)))
