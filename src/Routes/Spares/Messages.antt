-- ===== src/Routes/Spares/Messages.antt =====
-- The payments of src/websockets/routes/transactions.rs and the wallets whose keys the client does not
-- have.
use kromer.Exec.{from_sqlx}
use kromer.Prelude.{
  ℕ, ℤ, pos, leb_ℤ, ltb_ℤ, ◌≤ℤ◌, String, str_eq, ◌≡◌, Option, none, some, false, not,
}
use kromer.Database.{Tables, Wallet, VerifyResponse, TransactionCreateData}
use kromer.Database.Externals.{Externals, Decimal, make_v2_address}
use kromer.Database.Keeps.{Safe, Keeps-commit}
use kromer.Database.Transactions.{create}
use kromer.Database.Wallets.Funds.{positive_lem}
use kromer.Database.Wallets.Verified.{verify_address_pool-LivesAt}
use kromer.Exec.Ensures.{
  Ensures, Ensures-weaken, Ensures-pure, Ensures-bind, Ensures-branch, Ensures-if, Keeps-pure,
  Ensures-scoped, Ensures-map_err, Keeps-bind,
}
use kromer.Routes.Spares.{Lacks, Holds, Holds-Rows, Spares, elsewhere-Spares, create_impl-Holds}
use kromer.WebSockets.Caught.{Caught, catch-Caught}
use kromer.WebSockets.Handler.{pay_with}
use kromer.Database.Stays.{Stays, begin-Starts}
use kromer.WebSockets.Keeps.{Stays-catch, stays_rules, fetch_by_address-Stays, announce-Stays}
use kromer.WebSockets.Routes.{payment, pay_found, pay_verified, make_transaction}

module _ (x : Externals) (a : String) (b : ℤ) where
  create-Holds : (d : TransactionCreateData) → Spares a d → Stays (Holds a b) (create d)
  unfolding create
  create-Holds d s =
      Ensures-scoped _ (λ r w h. record { outside = h.outside })
        (λ w h. record { outside = h.outside })
        (Ensures-bind _ _ (Ensures-map_err from_sqlx _ begin-Starts) λ _.
          Ensures-bind _ _ (create_impl-Holds (Holds a b) d s) λ t.
            Ensures-bind _ _ (Ensures-map_err from_sqlx _ Keeps-commit)
              λ _. Ensures-pure _ t (λ w h. h))

  module _ (id : Option ℕ) (amount : ℤ) (gain : pos 0 ≤ℤ amount) (metadata : Option String) where
    pay_found-Holds :
        (to : String) (v : Wallet) (o : Option (Option Wallet))
        → str_eq a v.address ≡ false
        → Stays (Holds a b) (pay_found x id to v amount metadata o)
    pay_found-Holds to v none other = search stays_rules
    pay_found-Holds to v (some none) other = search stays_rules
    pay_found-Holds to v (some (some r)) other =
        Ensures-if (ltb_ℤ v.balance amount) _ _ (Keeps-pure _) (
          Keeps-bind _ _
            (Stays-catch _
              (create-Holds (payment x v r amount metadata) (elsewhere-Spares a _ gain other)))
            λ t. announce-Stays Holds-Rows x id t)

    pay_verified-Holds :
        (to : String) (r : VerifyResponse)
        → str_eq a r.wallet.address ≡ false
        → Stays (Holds a b) (pay_verified x id to amount metadata (some r))
    pay_verified-Holds to r other =
        Ensures-branch (not r.authed) _ _ (λ refused. search stays_rules)
          (λ authed.
            Keeps-bind _ _ (search (stays_rules, fetch_by_address-Stays))
              λ o. pay_found-Holds to r.wallet o other)

  -- Verified against the key.
  abbrev AtKey : String → VerifyResponse → Tables → Type 0
  AtKey key r t = Holds a b t × (r.wallet.address ≡ make_v2_address x key)

  verified-Holds :
      (key to : String) (amount : ℤ) (metadata : Option String) (id : Option ℕ)
      (r : Option VerifyResponse)
      → str_eq a (make_v2_address x key) ≡ false
      → leb_ℤ amount (pos 0) ≡ false
      → Ensures
          (Safe (Caught (AtKey key) (Holds a b) r))
          (λ _. Safe (Holds a b))
          (Safe (Holds a b))
          (pay_verified x id to amount metadata r)
  verified-Holds key to amount metadata id none other positive = search stays_rules
  verified-Holds key to amount metadata id (some r) other positive = record {
    at = λ w h.
        (pay_verified-Holds id amount (positive_lem amount positive) metadata to r
            (rw h.outside.1 other)).at
          w (record { outside = h.outside.0 });
  }

  make_transaction-Holds :
      (key to : String) (raw : Decimal) (metadata : Option String) (id : Option ℕ)
      → str_eq a (make_v2_address x key) ≡ false
      → Stays (Holds a b) (make_transaction x key to raw metadata id)
  unfolding make_transaction
  make_transaction-Holds key to raw metadata id other =
      Ensures-branch (leb_ℤ (x.round_dp2 raw) (pos 0)) _ _ (λ refused. search stays_rules)
        (λ positive.
          Ensures-bind _ _
            (catch-Caught (AtKey key) (Holds a b) _ (
              Ensures-weaken _ (λ r w h. record { outside = (h.0.outside, h.1) }) (λ w h. h)
                (verify_address_pool-LivesAt x Holds-Rows.wallet_inserted key)))
            λ r. verified-Holds key to (x.round_dp2 raw) metadata id r other positive)

  pub pay_with-Holds :
      (to : String) (amount : Decimal) (metadata : Option String) (id : Option ℕ)
      (key : Option String)
      → Lacks x a key
      → Stays (Holds a b) (pay_with x to amount metadata id key)
  pay_with-Holds to amount metadata id none lacks = search stays_rules
  pay_with-Holds to amount metadata id (some key) lacks =
      make_transaction-Holds key to amount metadata id lacks
