-- ===== src/Database/Wallets/Verified.antt =====
-- `Wallet::verify_address` of src/database/wallet.rs: the wallet that it returns is the one at the
-- key's address, found or created, through the pool and inside a transaction.
use kromer.Prelude.{
  ℕ, pos, String, ◌≡◌, refl, Option, none, some, List, find, Bool, true, false, if◌then◌else◌,
}
use kromer.Errors.{database}
use kromer.Exec.{from_sqlx, ok, err, panic, World, current}
use kromer.Exec.Ensures.{
  After, Ensures, Ensures-replied, with_fact, Ensures-replied, with_fact, Ensures-bind,
  Ensures-pure, Ensures-map_err, Keeps-bind, given,
}
use kromer.Database.{Tables, Serials, Wallet}
use kromer.Database.Externals.{Externals, make_v2_address}
use kromer.Database.Keeps.{Both, Safe, Writes, Keeps-trip}
use kromer.Database.Statements.{pool, tx, Written, settle, query, insert}
use kromer.Database.Wallets.{
  at_address, fetch_by_address, verify_address, acquire, or_create, create_wallet, insert_wallet,
  accepts_wallet, new_wallet, key_hash,
}
use kromer.Database.Wallets.Runs.{address-of-find}
use kromer.Database.Stays.{Stays-trip}

-- What a look-up by an address returns has that address.
abbrev pub LivesAt : String → Option Wallet → Type 0
LivesAt a none = Unit
LivesAt a (some v) = v.address ≡ a

find-LivesAt : (a : String) (ws : List Wallet) → LivesAt a (find (at_address a) ws)
find-LivesAt a ws = lives _ refl
  where
    lives : (o : Option Wallet) → find (at_address a) ws ≡ o → LivesAt a o
    lives none e = tt
    lives (some v) e = address-of-find a ws v e

module _ {C W : Tables → Type 0} where
  pub fetch-LivesAt :
      (a : String)
      → Ensures (Both C W) (λ o w. Both C W w × LivesAt a o) (Safe C) (fetch_by_address tx a)
  unfolding fetch_by_address query
  fetch-LivesAt a = Ensures-map_err from_sqlx _ (
      Ensures-bind _ _ Keeps-trip
        λ _. record { at = λ w h. (h, find-LivesAt a (current w).wallets) })

-- The row that a statement returns, if it succeeds, has this address.
abbrev Returns : String → Written Wallet → Type 0
Returns a (ok (v, t)) = v.address ≡ a
Returns a (err e) = Unit
Returns a panic = Unit

insert_wallet-Returns :
    (a hash : String) (s : Serials) (now : ℕ) (t : Tables)
    → Returns a (insert_wallet a hash (pos 0) s now t)
unfolding insert_wallet
insert_wallet-Returns a hash s now t =
    either (accepts_wallet s.wallet_id t.wallets a hash (pos 0)) _
  where
    either :
        (b : Bool) (u : Tables)
        → Returns a (if b then ok (new_wallet s.wallet_id now a hash (pos 0), u) else err database)
    either true u = refl
    either false u = tt

module _ (C W : Tables → Type 0) where
  settle-LivesAt :
      (a : String) (w : World) (r : Written Wallet)
      → C w.committed
      → Writes W r
      → Returns a r
      → After (λ v w. Both C W w × (v.address ≡ a)) (Safe C) (settle tx r w)
  settle-LivesAt a w (ok (v, t)) c h k = (record { outside = c; inside = h }, k)
  settle-LivesAt a w (err e) c h k = record { outside = c }
  settle-LivesAt a w panic c h k = record { outside = c }

  settle_pool-LivesAt :
      (a : String) (w : World) (r : Written Wallet)
      → C w.committed
      → Writes C r
      → Returns a r
      → After (λ v w. Safe C w × (v.address ≡ a)) (Safe C) (settle pool r w)
  settle_pool-LivesAt a w (ok (v, t)) c h k = (record { outside = h }, k)
  settle_pool-LivesAt a w (err e) c h k = record { outside = c }
  settle_pool-LivesAt a w panic c h k = record { outside = c }

module _ (x : Externals) {C W : Tables → Type 0}
    (kept : (a hash : String) (s : Serials) (now : ℕ) (t : Tables)
      → W t
      → Writes W (insert_wallet a hash (pos 0) s now t)) where
  or_create-LivesAt :
      (a hash : String) (o : Option Wallet)
      → LivesAt a o
      → Ensures (Both C W) (λ v w. Both C W w × (v.address ≡ a)) (Safe C) (or_create x tx a hash o)
  unfolding create_wallet insert
  or_create-LivesAt a hash none k = Ensures-map_err from_sqlx _ (
      Ensures-bind _ _ Keeps-trip λ _.
        Ensures-replied _
          (record {
            at = λ w h.
                settle-LivesAt C W a _ _ h.outside
                  (kept a hash w.serials w.now (current w) h.inside)
                  (insert_wallet-Returns a hash w.serials w.now (current w));
          })
          (λ _. with_fact Keeps-trip))
  or_create-LivesAt a hash (some v) k = Ensures-pure _ v (λ w h. (h, k))

  pub verify_address-LivesAt :
      (key : String)
      → Ensures
          (Both C W)
          (λ r w. Both C W w × (r.wallet.address ≡ make_v2_address x key))
          (Safe C)
          (verify_address x tx key)
  unfolding verify_address acquire
  verify_address-LivesAt key =
      Ensures-bind _ _ (Ensures-map_err from_sqlx _ (Ensures-pure (λ _. Both C W) tt (λ w h. h)))
        λ _. Ensures-bind _ _ (fetch-LivesAt (make_v2_address x key)) λ o.
          Ensures-bind _ _ (given (or_create-LivesAt (make_v2_address x key) (key_hash x key) o))
            λ v. Ensures-pure _ _ (λ w h. h)

-- Through the pool.
module _ (x : Externals) {C : Tables → Type 0}
    (kept : (a hash : String) (s : Serials) (now : ℕ) (t : Tables)
      → C t
      → Writes C (insert_wallet a hash (pos 0) s now t)) where
  fetch_pool-LivesAt :
      (a : String)
      → Ensures (Safe C) (λ o w. Safe C w × LivesAt a o) (Safe C) (fetch_by_address pool a)
  unfolding fetch_by_address query
  fetch_pool-LivesAt a = Ensures-map_err from_sqlx _ (
      Ensures-bind _ _ Stays-trip
        λ _. record { at = λ w h. (h, find-LivesAt a w.committed.wallets) })

  or_create_pool-LivesAt :
      (a hash : String) (o : Option Wallet)
      → LivesAt a o
      → Ensures (Safe C) (λ v w. Safe C w × (v.address ≡ a)) (Safe C) (or_create x pool a hash o)
  unfolding create_wallet insert
  or_create_pool-LivesAt a hash none k = Ensures-map_err from_sqlx _ (
      Ensures-bind _ _ Stays-trip λ _.
        Ensures-replied _
          (record {
            at = λ w h.
                settle_pool-LivesAt C C a _ _ h.outside
                  (kept a hash w.serials w.now w.committed h.outside)
                  (insert_wallet-Returns a hash w.serials w.now w.committed);
          })
          (λ _. with_fact Stays-trip))
  or_create_pool-LivesAt a hash (some v) k = Ensures-pure _ v (λ w h. (h, k))

  pub verify_address_pool-LivesAt :
      (key : String)
      → Ensures
          (Safe C)
          (λ r w. Safe C w × (r.wallet.address ≡ make_v2_address x key))
          (Safe C)
          (verify_address x pool key)
  unfolding verify_address acquire
  verify_address_pool-LivesAt key = Keeps-bind _ _ (Ensures-map_err from_sqlx _ Stays-trip) λ _.
      Ensures-bind _ _ (fetch_pool-LivesAt (make_v2_address x key)) λ o.
        Ensures-bind _ _ (given (or_create_pool-LivesAt (make_v2_address x key) (key_hash x key) o))
          λ v. Ensures-pure _ _ (λ w h. h)
