-- ===== src/Routes/Gives.antt =====
-- What `POST /wallet/give-money` of src/routes/internal/wallet.rs does to the sum of the balances.
use kromer.Prelude.{◌⊎◌, inl, inr, ℤ, ◌+ℤ◌, String, ◌≡◌, refl, Option, some}
use mathlib.Core.Path.{subst, sym}
use kromer.Errors.{SqlxError, KromerError, kromer_of_database, DatabaseError}
use kromer.Database.{Tables}
use kromer.Database.Closed.{Keeps}
use kromer.Database.Externals.{Externals, Decimal}
use kromer.Database.Keeps.{
  Both, Safe, Both-Safe, Split, before_commit, commit-Splits, Split-scoped, Keeps-insert,
  Keeps-query,
}
use kromer.Database.Statements.{tx}
use kromer.Database.Transactions.{create_no_update, plain_row}
use kromer.Database.Transactions.Conserves.{insert_transaction-Writes, update_balance-Moves}
use kromer.Database.Wallets.{fetch_by_address}
use kromer.Database.Wallets.Total.{total, UniqueAddresses, Balanced}
use kromer.Exec.{Outcome, ok, err, panic, World, begin}
use kromer.Exec.Ensures.{
  After, Ensures, Ensures-weaken, Ensures-pure, Ensures-bind, Ensures-scoped, Ensures-map_err,
  Ensures-ok_or, Ensures-throw_if, Keeps-bind,
}
use kromer.Routes.Internal.{wallet_give_money}
use kromer.Database.Stays.{begin-Starts, same_state}

-- The two ways for a gift to end: the sum moved by the amount, or nothing changed. It is only where the
-- gift succeeds that the caller knows which.
abbrev pub Gave : {A : Type 0} → World → ℤ → Outcome KromerError A × World → Type 0
Gave w d (ok a, w') = total w'.committed.wallets ≡ total w.committed.wallets +ℤ d
Gave w d (err e, w') =
    (w'.committed ≡ w.committed) ⊎ (total w'.committed.wallets ≡ total w.committed.wallets +ℤ d)
Gave w d (panic, w') =
    (w'.committed ≡ w.committed) ⊎ (total w'.committed.wallets ≡ total w.committed.wallets +ℤ d)

abbrev Still : Tables → Tables → Type 0
Still t u = u ≡ t

abbrev from_sqlx : SqlxError → Option KromerError
from_sqlx e = some (KromerError.database e)

abbrev from_database : DatabaseError → Option KromerError
from_database e = some (kromer_of_database e)

module _ (t : Tables) (unique : UniqueAddresses t.wallets) where
  started :
      Ensures
        (Safe (Still t))
        (λ _. Both (Still t) (Balanced (total t.wallets)))
        (Safe (Still t))
        begin
  started =
      Ensures-weaken begin
        (λ a w h. record {
          outside = h.outside;
          inside =
              subst (Balanced (total t.wallets)) (sym h.inside)
                (record { unique = unique; sums = refl });
        })
        (λ w h. h) begin-Starts

module _ (C : Tables → Type 0) (b : ℤ) where
  fetch_by_address-Balanced : (a : String) → Keeps C (Balanced b) (fetch_by_address tx a)
  unfolding fetch_by_address
  fetch_by_address-Balanced a =
      Ensures-map_err (λ e. some (DatabaseError.sqlx e)) _ (Keeps-query tx _)

  create_no_update-Balanced : (d : _) → Keeps C (Balanced b) (create_no_update tx d)
  unfolding create_no_update
  create_no_update-Balanced d =
      Ensures-map_err (λ e. some (DatabaseError.sqlx e)) _
        (Keeps-insert _ _ λ s now t.
          insert_transaction-Writes (Balanced b) (plain_row d) s now t
            (λ l h. record { unique = h.unique; sums = h.sums }))

module _ (x : Externals) (t : Tables) (unique : UniqueAddresses t.wallets) where
  wallet_give_money-Balanced :
      (a : String) (raw : Decimal)
      → Ensures
          (Safe (Still t))
          (λ _. Safe (Balanced (total t.wallets +ℤ x.round_dp2 raw)))
          (Split (Still t) (Balanced (total t.wallets +ℤ x.round_dp2 raw)))
          (wallet_give_money x a raw)
  unfolding wallet_give_money
  wallet_give_money-Balanced a raw =
      let b = total t.wallets in
      let d = x.round_dp2 raw in
      Ensures-scoped _ (λ r w h. record { outside = h.outside }) Split-scoped
        (Keeps-bind _ _ (before_commit (Ensures-throw_if _ _ same_state)) λ _.
          Ensures-bind _ _ (before_commit (Ensures-map_err from_sqlx _ (started t unique))) λ _.
            Keeps-bind _ _
              (before_commit
                (Ensures-map_err from_database _ (fetch_by_address-Balanced (Still t) b a)))
              λ o. Keeps-bind _ _ (before_commit (Ensures-ok_or o _ Both-Safe)) λ found.
                Ensures-bind _ _
                  (before_commit
                    (Ensures-map_err from_sqlx _ (update_balance-Moves (Still t) b d found)))
                  λ updated.
                    Keeps-bind _ _
                      (before_commit (
                        Ensures-map_err from_database _
                          (create_no_update-Balanced (Still t) (b +ℤ d) _)))
                      λ _. Ensures-bind _ _ (Ensures-map_err from_sqlx _ commit-Splits) λ _.
                        Ensures-pure (λ _. Safe (Balanced (b +ℤ d))) updated
                          (λ w h. record { outside = h.outside }))

module _ (w : World) (d : ℤ) where
  either_way :
      (w' : World)
      → Split (Still w.committed) (Balanced (total w.committed.wallets +ℤ d)) w'
      → (w'.committed ≡ w.committed) ⊎ (total w'.committed.wallets ≡ total w.committed.wallets +ℤ d)
  either_way w' (inl h) = inl h.outside
  either_way w' (inr h) = inr h.outside.sums

  gave :
      {A : Type 0} (r : Outcome KromerError A × World)
      → After
          (λ _. Safe (Balanced (total w.committed.wallets +ℤ d)))
          (Split (Still w.committed) (Balanced (total w.committed.wallets +ℤ d)))
          r
      → Gave w d r
  gave (ok a, w') h = h.outside.sums
  gave (err e, w') h = either_way w' h
  gave (panic, w') h = either_way w' h

-- A gift that succeeds adds its rounded amount to the sum of the committed balances, and one that ends
-- in an error or a panic, at whichever lost message, either adds it too or leaves the committed tables as
-- they were, if no two wallets have one address.
pub wallet_give_money-Gave :
    (x : Externals) (a : String) (raw : Decimal) (w : World)
    → UniqueAddresses w.committed.wallets
    → Gave w (x.round_dp2 raw) (wallet_give_money x a raw w)
wallet_give_money-Gave x a raw w u =
    gave w (x.round_dp2 raw) (wallet_give_money x a raw w)
      ((wallet_give_money-Balanced x w.committed u a raw).at w (record { outside = refl }))
