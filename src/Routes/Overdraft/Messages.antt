-- ===== src/Routes/Overdraft/Messages.antt =====
-- The payments of src/websockets/routes/transactions.rs and the sign of the balances: the test reads
-- the pool, and the payment has a transaction of its own.
use mathlib.Core.Path.{subst, sym}
use kromer.Prelude.{
  ℕ, ℤ, pos, leb_ℤ, ltb_ℤ, String, ◌≤ℤ◌, ◌≡◌, refl, Option, none, some, find, false, not,
}
use kromer.Database.{Tables, Wallet, VerifyResponse, TransactionCreateData}
use kromer.Database.Externals.{Externals, Decimal, make_v2_address}
use kromer.Database.Keeps.{Safe, Keeps-commit, Yields}
use kromer.Database.Statements.{pool, Written, settle, query, insert}
use kromer.Database.Transactions.{create}
use kromer.Database.Wallets.{
  at_address, fetch_by_address, verify_address, acquire, or_create, create_wallet, key_hash,
}
use kromer.Database.Wallets.Funds.{positive_lem}
use kromer.Database.Wallets.Runs.{address-of-find}
use kromer.Exec.{from_sqlx, ok, err, panic, World}
use kromer.Exec.Ensures.{
  After, Ensures, Ensures-weaken, Ensures-replied, Ensures-pure, Ensures-bind, Ensures-branch,
  Ensures-scoped, Ensures-map_err, Keeps-bind,
}
use kromer.Routes.Funds.{Solvent, Found, Has, new_wallet-Has}
use kromer.Routes.Overdraft.{paid}
use kromer.Routes.Overdraft.Names.{Solvent-Rows}
use kromer.WebSockets.Handler.{pay_with}
use kromer.Database.Stays.{Stays, Stays-trip, begin-Starts}
use kromer.WebSockets.Keeps.{stays_rules, fetch_by_address-Stays, announce-Stays}
use kromer.WebSockets.Caught.{Caught, catch-Caught}
use kromer.WebSockets.Routes.{announce, payment, pay, pay_found, pay_verified, make_transaction}

fetch_by_address-Finds :
    (a : String)
    → Ensures (Safe Solvent) (λ o. Safe (Found a o)) (Safe Solvent) (fetch_by_address pool a)
unfolding fetch_by_address query
fetch_by_address-Finds a = Ensures-map_err from_sqlx _ (
    Ensures-bind _ _ Stays-trip
      λ _. record { at = λ w h. record { outside = record { solvent = h.outside; found = refl } } })

settle_pool-After :
    {A : Type 0} (J : A → Tables → Type 0) (w : World) (r : Written A)
    → Solvent w.committed
    → Yields J r
    → After (λ a. Safe (J a)) (Safe Solvent) (settle pool r w)
settle_pool-After J w (ok (a, t)) c h = record { outside = h }
settle_pool-After J w (err e) c h = record { outside = c }
settle_pool-After J w panic c h = record { outside = c }

or_create-Gives :
    (x : Externals) (a hash : String) (o : Option Wallet)
    → Ensures (Safe (Found a o)) (λ v. Safe (Has v)) (Safe Solvent) (or_create x pool a hash o)
unfolding create_wallet insert
or_create-Gives x a hash none = Ensures-map_err from_sqlx _ (
    Ensures-bind _ _
      (Ensures-weaken _ (λ _ w h. h) (λ w h. record { outside = h.outside.solvent }) Stays-trip)
      λ _.
        Ensures-replied _
          (record {
            at = λ w h.
                settle_pool-After Has _ _ h.outside.solvent
                  (new_wallet-Has x a hash w.serials w.now w.committed h.outside);
          })
          λ v.
            Ensures-weaken _ (λ _ w h. h) (λ w h. record { outside = h.outside.solvent })
              Stays-trip)
or_create-Gives x a hash (some v) = Ensures-pure _ v λ w h. record {
  outside = record {
    solvent = h.outside.solvent;
    found =
        subst (λ b. find (at_address b) w.committed.wallets ≡ some v)
          (sym (address-of-find a w.committed.wallets v h.outside.found)) h.outside.found;
  };
}

verify_address-Gives :
    (x : Externals) (key : String)
    → Ensures (Safe Solvent) (λ r. Safe (Has r.wallet)) (Safe Solvent) (verify_address x pool key)
unfolding verify_address acquire
verify_address-Gives x key = Keeps-bind _ _ (Ensures-map_err from_sqlx _ Stays-trip) λ _.
    Ensures-bind _ _ (fetch_by_address-Finds (make_v2_address x key)) λ o.
      Ensures-bind _ _ (or_create-Gives x (make_v2_address x key) (key_hash x key) o)
        λ v. Ensures-pure _ _ (λ w h. h)

-- A failure leaves less.
module _ {v : Wallet} where
  still : (w : World) → Safe (Has v) w → Safe Solvent w
  still w h = record { outside = h.outside.solvent }

-- A payment in a transaction of its own, after the test of the payer's balance.
create-Pays :
    (v : Wallet) (d : TransactionCreateData)
    → pos 0 ≤ℤ d.amount
    → d.from ≡ v.address
    → ltb_ℤ v.balance d.amount ≡ false
    → Ensures (Safe (Has v)) (λ _. Safe Solvent) (Safe Solvent) (create d)
unfolding create
create-Pays v d gain from enough =
    Ensures-scoped _ (λ a w b. record { outside = b.outside })
      (λ w s. record { outside = s.outside })
      (Ensures-bind _ _
        (Ensures-map_err from_sqlx _ (
          Ensures-weaken _ (λ _ w h. record { outside = h.outside.solvent; inside = h.inside })
            still begin-Starts))
        λ _. Ensures-bind _ _ (paid v d gain from enough) λ t.
          Ensures-bind _ _ (Ensures-map_err from_sqlx _ Keeps-commit)
            λ _. Ensures-pure _ t (λ w h. h))

module _ (x : Externals) (id : Option ℕ) (amount : ℤ) (gain : pos 0 ≤ℤ amount)
    (metadata : Option String) where
  pay-Solvent :
      (v r : Wallet)
      → Ensures (Safe (Has v)) (λ _. Safe Solvent) (Safe Solvent) (pay x id v r amount metadata)
  pay-Solvent v r =
      Ensures-branch _ _ _ (λ poor. Ensures-pure _ _ still)
        (λ enough.
          Ensures-bind _ _
            (catch-Caught (λ _. Solvent) Solvent _
              (create-Pays v (payment x v r amount metadata) gain refl enough))
            λ o. announced o)
    where
      announced :
          (o : _)
          → Ensures
              (Safe (Caught (λ _. Solvent) Solvent o))
              (λ _. Safe Solvent)
              (Safe Solvent)
              (announce x id o)
      announced none = announce-Stays Solvent-Rows x id none
      announced (some t) = announce-Stays Solvent-Rows x id (some t)

  pay_found-Solvent :
      (to : String) (v : Wallet) (o : Option (Option Wallet))
      → Ensures
          (Safe (Has v))
          (λ _. Safe Solvent)
          (Safe Solvent)
          (pay_found x id to v amount metadata o)
  pay_found-Solvent to v none = Ensures-pure _ _ still
  pay_found-Solvent to v (some none) = Ensures-pure _ _ still
  pay_found-Solvent to v (some (some r)) = pay-Solvent v r

  pay_verified-Solvent :
      (to : String) (r : Option VerifyResponse)
      → Ensures
          (Safe (Caught (λ r. Has r.wallet) Solvent r))
          (λ _. Safe Solvent)
          (Safe Solvent)
          (pay_verified x id to amount metadata r)
  pay_verified-Solvent to none = Ensures-pure _ _ (λ w h. h)
  pay_verified-Solvent to (some r) =
      Ensures-branch (not r.authed) _ _ (λ refused. Ensures-pure (λ _. Safe Solvent) _ still)
        (λ authed.
          Ensures-bind _ _
            (catch-Caught (λ _. Has r.wallet) Solvent _
              (Ensures-weaken _ (λ _ w h. h) still (fetch_by_address-Stays to)))
            λ o. found o)
    where
      found :
          (o : _)
          → Ensures
              (Safe (Caught (λ _. Has r.wallet) Solvent o))
              (λ _. Safe Solvent)
              (Safe Solvent)
              (pay_found x id to r.wallet amount metadata o)
      found none = Ensures-pure _ _ (λ w h. h)
      found (some o) = pay_found-Solvent to r.wallet (some o)

module _ (x : Externals) where
  make_transaction-Solvent :
      (key to : String) (raw : Decimal) (metadata : Option String) (id : Option ℕ)
      → Stays Solvent (make_transaction x key to raw metadata id)
  unfolding make_transaction
  make_transaction-Solvent key to raw metadata id =
      Ensures-branch (leb_ℤ (x.round_dp2 raw) (pos 0)) _ _ (λ refused. Ensures-pure _ _ (λ w h. h))
        (λ positive.
          Ensures-bind _ _ (catch-Caught (λ r. Has r.wallet) Solvent _ (verify_address-Gives x key))
            λ r.
              pay_verified-Solvent x id (x.round_dp2 raw) (positive_lem (x.round_dp2 raw) positive)
                metadata to r)

  pub pay_with-Solvent :
      (to : String) (amount : Decimal) (metadata : Option String) (id : Option ℕ)
      (key : Option String)
      → Stays Solvent (pay_with x to amount metadata id key)
  pay_with-Solvent to amount metadata id none = search stays_rules
  pay_with-Solvent to amount metadata id (some key) =
      make_transaction-Solvent key to amount metadata id
