-- ===== src/Routes/Overdraft/Names.antt =====
-- The handlers of src/routes/krist/names.rs and the sign of the balances.
use kromer.Prelude.{ℕ, pos, String, refl, Option, List, Bool, arith}
use kromer.Errors.{SqlxError}
use kromer.Errors.Krist.{krist_of_database}
use kromer.Database.{Tables, Serials, Name}
use kromer.Database.Closed.{
  Rows, OwnerWritten, Keeps, keeps_rules, create-Keeps, fetch_by_name-Keeps, update_ownership-Keeps,
  verify_address-Keeps,
}
use kromer.Database.Externals.{Externals}
use kromer.Database.Keeps.{Both-Safe, Writes, Writes-check, Keeps-commit}
use kromer.Database.Statements.{fits_text}
use kromer.Database.Names.{with_owner, insert_name, write_name, accepts_name}
use kromer.Database.Statements.{put_rows}
use kromer.Database.Transactions.{create_in_transaction}
use kromer.Database.Wallets.{insert_wallet, accepts_wallet}
use kromer.Database.Wallets.Funds.{push-Funded}
use kromer.Database.Wallets.Total.{push-UniqueAddresses, accepted_is_new}
use kromer.Exec.{Outcome, ok, err, panic, current}
use kromer.Exec.Ensures.{
  given, Ensures-after, Ensures-bind, Ensures-throw_if, Ensures-map_err, Keeps-bind,
}
use kromer.Routes.Funds.{Solvent, verify_address-Has}
use kromer.Routes.Keeps.{
  Always, scoped-Keeps, begin-Keeps, refuse_taken-Keeps, broadcast_event-Keeps,
}
use kromer.Routes.Names.{
  TransferNameRequest, register_in_transaction, name_register, name_transfer_data, hand_over,
  name_transfer_route,
}
use kromer.Routes.Overdraft.{create_impl-Solvent, paid, free-Payable}
use kromer.Routes.Owners.{throw_if-Yields}

new_wallet-Solvent :
    (a hash : String) (s : Serials) (now : ℕ) (t : Tables)
    → Solvent t
    → Writes Solvent (insert_wallet a hash (pos 0) s now t)
unfolding insert_wallet
new_wallet-Solvent a hash s now t h =
    Writes-check Solvent (accepts_wallet s.wallet_id t.wallets a hash (pos 0)) _ _ λ fit. record {
      unique =
          push-UniqueAddresses t.wallets _ h.unique
            (accepted_is_new s.wallet_id a t.wallets hash (pos 0) fit);
      funded = push-Funded t.wallets _ h.funded (omega arith);
    }

name-Solvent :
    (o : Outcome SqlxError (Name × List Name)) (t : Tables)
    → Solvent t
    → Writes Solvent (put_rows (λ rows. record t { names = rows }) o)
name-Solvent (ok (r, rows)) t h = record { unique = h.unique; funded = h.funded }
name-Solvent (err e) t h = tt
name-Solvent panic t h = tt

insert_name-Solvent :
    (n o : String) (s : Serials) (now : ℕ) (t : Tables)
    → Solvent t
    → Writes Solvent (insert_name n o s now t)
unfolding insert_name
insert_name-Solvent n o s now t h =
    Writes-check Solvent (accepts_name s.name_id t.names n o) _ _
      (λ _. record { unique = h.unique; funded = h.funded })

write_name-Solvent :
    (fits : Name → Bool) (n : String) (f : ℕ → Name → Name) (now : ℕ) (t : Tables)
    → Solvent t
    → Writes Solvent (write_name fits n f now t)
unfolding write_name
write_name-Solvent fits n f now t h = name-Solvent _ t h

owner-Solvent : OwnerWritten Solvent
owner-Solvent = record {
  at = λ n o now t h. write_name-Solvent (λ _. fits_text 10 o) n (with_owner o) now t h;
}

-- The rows that are written outside payments take no money away.
pub Solvent-Rows : Rows Solvent
Solvent-Rows = record {
  wallet_inserted = new_wallet-Solvent;
  name_inserted = insert_name-Solvent;
  name_written = λ fits n f now t _ _. write_name-Solvent fits n f now t;
}

module _ (x : Externals) where
  -- A purchase costs what the test of the balance asks for.
  register_in_transaction-Solvent :
      (n key : String) → Keeps Solvent Solvent (register_in_transaction x n key)
  unfolding register_in_transaction create_in_transaction
  register_in_transaction-Solvent n key =
      Keeps-bind _ _
        (Ensures-map_err krist_of_database _ (fetch_by_name-Keeps Solvent-Rows x Solvent _ n))
        λ found. Keeps-bind _ _ (refuse_taken-Keeps found) λ _.
          Ensures-bind _ _ (Ensures-map_err krist_of_database _ (verify_address-Has x key)) λ v.
            Keeps-bind _ _ (Ensures-throw_if _ _ Both-Safe) λ _.
              Ensures-bind _ _ (throw_if-Yields _ _ Both-Safe) λ _. given λ enough.
                Ensures-bind _ _
                  (Ensures-map_err krist_of_database _ (paid v.wallet _ (omega arith) refl enough))
                  λ t. Keeps-bind _ _ (broadcast_event-Keeps _) λ _.
                    Ensures-map_err krist_of_database _
                      (create-Keeps Solvent-Rows x Solvent n v.wallet.address)

  pub name_register-Solvent :
      (n : String) (key : Option String) → Always Solvent (name_register x n key)
  unfolding name_register
  name_register-Solvent n key =
      scoped-Keeps _
        (search (keeps_rules, begin-Keeps, register_in_transaction-Solvent, Keeps-commit) depth 16)

  -- The record of a transfer moves nothing.
  handed_over-Solvent :
      (n : Name) (to : String)
      → Keeps Solvent Solvent (create_in_transaction (name_transfer_data n to))
  unfolding create_in_transaction
  handed_over-Solvent n to =
      Ensures-after _
        (λ w h. record {
          outside = h.outside;
          inside = free-Payable (name_transfer_data n to) (current w) refl h.inside;
        })
        (create_impl-Solvent (name_transfer_data n to) (omega arith))

  hand_over-Solvent : (n : Name) (to : String) → Keeps Solvent Solvent (hand_over x n to)
  unfolding hand_over
  hand_over-Solvent n to =
      search
        (
          keeps_rules,
          update_ownership-Keeps owner-Solvent Solvent,
          handed_over-Solvent,
          Keeps-commit,
          broadcast_event-Keeps,
        )
        depth 16

  pub name_transfer_route-Solvent :
      (n : String) (details : TransferNameRequest)
      → Always Solvent (name_transfer_route x n details)
  unfolding name_transfer_route
  name_transfer_route-Solvent n details = scoped-Keeps _ (
      search
        (
          keeps_rules,
          begin-Keeps,
          verify_address-Keeps Solvent-Rows x Solvent,
          fetch_by_name-Keeps Solvent-Rows x Solvent,
          hand_over-Solvent,
        )
        depth 22)
