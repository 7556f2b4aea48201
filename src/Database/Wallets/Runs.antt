-- ===== src/Database/Wallets/Runs.antt =====
-- What the operations on wallets return and write where no message to the database is lost.
use kromer.Prelude.{
  ℤ, String, str_eq, eq_iff, ◌≡◌, refl, ap, none, some, List, [], ◌∷◌, find, update_where, Bool,
  true, false, arith, Bool-cases, inl, inr, if◌then◌else◌,
}
use kromer.Database.{Tables, Wallet}
use kromer.Database.Externals.{Externals, make_v2_address}
use kromer.Database.Statements.{tx, all_fit, update_returning, query, update}
use kromer.Database.Wallets.{
  at_address, fetch_by_address, verify_address, acquire, key_hash, same_key, with_change,
  fits_wallet, write_wallet, update_balance,
}
use kromer.Database.Wallets.Total.{UniqueAddresses}
use kromer.Exec.{ok, World, current, trip, replied, ◌>>=◌}

-- No message to the database is lost.
abbrev pub calm : World → World
calm w = record w { faults = [] }

pub fetch_by_address-run :
    (a : String) (w : World)
    → fetch_by_address tx a (calm w) ≡ (ok (find (at_address a) (current w).wallets), calm w)
unfolding fetch_by_address query trip replied ◌>>=◌
fetch_by_address-run a w = refl

module _ (x : Externals) where
  -- A key whose wallet is there.
  pub verify_address-run :
      (key : String) (w : World) (found : Wallet)
      → find (at_address (make_v2_address x key)) (current w).wallets ≡ some found
      → verify_address x tx key (calm w) ≡ (
        ok (record { authed = same_key found.private_key (key_hash x key); wallet = found }),
        calm w,
      )
  unfolding verify_address acquire fetch_by_address query trip replied ◌>>=◌
  verify_address-run key w found h = rw h refl

module _ (fits : Wallet → Bool) (f : Wallet → Wallet) (a : String) where
  all_fit_absent :
      (ws : List Wallet) → find (at_address a) ws ≡ none → all_fit fits (at_address a) f ws ≡ true
  all_fit_absent [] h = refl
  all_fit_absent (w ∷ ws) h = ground (arith, all_fit_absent ws)

  -- With one wallet to an address it is enough that this one fits.
  pub all_fit_found :
      (ws : List Wallet) (w : Wallet)
      → UniqueAddresses ws
      → find (at_address a) ws ≡ some w
      → fits (f w) ≡ true
      → all_fit fits (at_address a) f ws ≡ true
  all_fit_found [] w u h k = refl
  all_fit_found (v ∷ ws) w u h k = elim (Bool-cases (str_eq v.address a)) [
    | inl here ↦
        let same : v.address ≡ a = (eq_iff v.address a).0 here in
        let is_it : some v ≡ some w = rw here at h in
        let v_fits : fits (f v) ≡ true = cc in
        rw (here, v_fits) (all_fit_absent ws (rw same at u.0))
    | inr there ↦ rw there (all_fit_found ws w u.1 (rw there at h) k)
  ]

  pub update_returning-run :
      (ws : List Wallet) (w : Wallet)
      → UniqueAddresses ws
      → find (at_address a) ws ≡ some w
      → fits (f w) ≡ true
      → update_returning fits (at_address a) f ws ≡ ok (f w, update_where (at_address a) f ws)
  unfolding update_returning
  update_returning-run ws w u h k = rw (all_fit_found ws w u h k, h) refl

-- The wallets that a relative update leaves.
abbrev pub moved : String → ℤ → Tables → Tables
moved a d t = record t { wallets = update_where (at_address a) (with_change d) t.wallets }

pub update_balance-run :
    (self found : Wallet) (d : ℤ) (w : World)
    → UniqueAddresses (current w).wallets
    → find (at_address self.address) (current w).wallets ≡ some found
    → fits_wallet (with_change d found) ≡ true
    → update_balance self tx d (calm w) ≡ (
      ok (with_change d found),
      record (calm w) { working = some (moved self.address d (current w)) },
    )
unfolding update_balance update trip replied ◌>>=◌ write_wallet
update_balance-run self found d w u h k =
    rw
      (update_returning-run fits_wallet (with_change d) self.address (current w).wallets found u h
        k)
      refl

-- A change at one address is not seen at another.
pub find-moved :
    (a b : String) (d : ℤ) (ws : List Wallet)
    → str_eq a b ≡ false
    → find (at_address b) (update_where (at_address a) (with_change d) ws) ≡ find (at_address b) ws
find-moved a b d [] h = refl
find-moved a b d (w ∷ ws) h = elim (Bool-cases (str_eq w.address a)) [
  | inl here ↦
      let same : w.address ≡ a = (eq_iff w.address a).0 here in
      let other : str_eq w.address b ≡ false = rw same h in rw (here, other) (find-moved a b d ws h)
  | inr there ↦
      rw there (ap (λ o. if str_eq w.address b then some w else o) (find-moved a b d ws h))
]

pub address-of-find :
    (a : String) (ws : List Wallet) (w : Wallet) → find (at_address a) ws ≡ some w → w.address ≡ a
address-of-find a [] w h = cc
address-of-find a (v ∷ ws) w h = elim (Bool-cases (str_eq v.address a)) [
  | inl here ↦
      let same : v.address ≡ a = (eq_iff v.address a).0 here in
      let is_it : some v ≡ some w = rw here at h in cc
  | inr there ↦ address-of-find a ws w (rw there at h)
]
