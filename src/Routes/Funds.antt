-- ===== src/Routes/Funds.antt =====
-- Tables without a balance below zero, and the wallet that `verify_address` finds in them.
use mathlib.Core.Path.{subst, sym}
use kromer.Prelude.{
  ℕ, pos, String, ◌≡◌, refl, Option, none, some, find, push, Bool, true, false, if◌then◌else◌,
  arith,
}
use kromer.Errors.{database}
use kromer.Database.{Tables, Serials, Wallet}
use kromer.Database.Externals.{Externals, make_v2_address}
use kromer.Database.Keeps.{Both, Safe, Keeps-trip, Yields, insert-Yields}
use kromer.Database.Statements.{tx, query}
use kromer.Database.Wallets.{
  at_address, fetch_by_address, verify_address, acquire, or_create, create_wallet, insert_wallet,
  accepts_wallet, new_wallet, key_hash,
}
use kromer.Database.Wallets.Funds.{Funded, push-Funded, find-push}
use kromer.Database.Wallets.Runs.{address-of-find}
use kromer.Database.Wallets.Total.{UniqueAddresses, push-UniqueAddresses}
use kromer.Exec.{from_sqlx, ok, err, current}
use kromer.Exec.Ensures.{Ensures, Ensures-weaken, Ensures-pure, Ensures-bind, Ensures-map_err}

pub record Solvent (t : Tables) : Type 0 where
  pub unique : UniqueAddresses t.wallets
  pub funded : Funded t.wallets

-- What a look-up of an address has found, in tables that are solvent.
pub record Found (a : String) (o : Option Wallet) (t : Tables) : Type 0 where
  pub solvent : Solvent t
  pub found : find (at_address a) t.wallets ≡ o

-- The wallet is there as it stands.
abbrev pub Has : Wallet → Tables → Type 0
Has v = Found v.address (some v)

module _ {C : Tables → Type 0} {W : Tables → Type 0}
    (solvent : (t : Tables) → W t → Solvent t) where
  pub fetch_by_address-Found :
      (a : String)
      → Ensures (Both C W) (λ o. Both C (λ t. W t × Found a o t)) (Safe C) (fetch_by_address tx a)
  unfolding fetch_by_address query
  fetch_by_address-Found a = Ensures-map_err from_sqlx _ (
      Ensures-bind _ _ Keeps-trip λ _. record {
        at = λ w h. record {
          outside = h.outside;
          inside = (h.inside, record { solvent = solvent (current w) h.inside; found = refl });
        };
      })

module _ (x : Externals) where
  pub new_wallet-Has :
      (a hash : String) (s : Serials) (now : ℕ) (t : Tables)
      → Found a none t
      → Yields Has (insert_wallet a hash (pos 0) s now t)
  unfolding insert_wallet
  new_wallet-Has a hash s now t h = either (accepts_wallet s.wallet_id t.wallets a hash (pos 0))
    where
      row : Wallet
      row = new_wallet s.wallet_id now a hash (pos 0)

      either :
          (b : Bool)
          → Yields Has
              (if b then ok (row, record t { wallets = push t.wallets row }) else err database)
      either true = record {
        solvent = record {
          unique = push-UniqueAddresses t.wallets row h.solvent.unique h.found;
          funded = push-Funded t.wallets row h.solvent.funded (omega arith);
        };
        found = find-push a t.wallets row h.found refl;
      }
      either false = tt

  or_create-Has :
      (a hash : String) (o : Option Wallet)
      → Ensures
          (Both Solvent (Found a o))
          (λ v. Both Solvent (Has v))
          (Safe Solvent)
          (or_create x tx a hash o)
  unfolding create_wallet
  or_create-Has a hash none =
      Ensures-map_err from_sqlx _ (insert-Yields Has _ _ (new_wallet-Has a hash))
  or_create-Has a hash (some v) = Ensures-pure _ v λ w h. record {
    outside = h.outside;
    inside = record {
      solvent = h.inside.solvent;
      found =
          subst (λ b. find (at_address b) (current w).wallets ≡ some v)
            (sym (address-of-find a (current w).wallets v h.inside.found)) h.inside.found;
    };
  }

  pub verify_address-Has :
      (key : String)
      → Ensures
          (Both Solvent Solvent)
          (λ r. Both Solvent (Has r.wallet))
          (Safe Solvent)
          (verify_address x tx key)
  unfolding verify_address acquire
  verify_address-Has key =
      Ensures-bind _ _
        (Ensures-map_err from_sqlx _ (Ensures-pure (λ _. Both Solvent Solvent) tt (λ w h. h)))
        λ _.
          Ensures-bind _ _
            (Ensures-weaken _ (λ o w h. record { outside = h.outside; inside = h.inside.1 })
              (λ w h. h) (fetch_by_address-Found (λ t h. h) (make_v2_address x key)))
            λ o.
              Ensures-bind _ _ (or_create-Has (make_v2_address x key) (key_hash x key) o)
                λ v. Ensures-pure _ _ (λ w h. h)
