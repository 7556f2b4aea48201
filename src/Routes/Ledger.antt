-- ===== src/Routes/Ledger.antt =====
-- Payments against an abstract ledger, which knows of each address only the balance.
use mathlib.Core.Option
use kromer.Prelude.{
  ℤ, neg_ℤ, ◌+ℤ◌, String, str_eq, eq_iff, ◌≡◌, refl, ap, ◌∙◌, Option, List, [], ◌∷◌, find,
  update_where, false, arith, Bool-cases, inl, inr, if◌then◌else◌,
}
use kromer.Database.{Wallet, Tables}
use kromer.Database.Externals.{Externals}
use kromer.Database.Wallets.{at_address, with_change}
use kromer.Database.Wallets.Runs.{calm, moved, find-moved}
use kromer.Exec.{World}
use kromer.Database.Wallets.Settled.{paid-settled}
use mathlib.Core.Path.{sym}
use kromer.Routes.Pays.{Acceptable, data_of, transaction_create-pays}
use kromer.Routes.Transactions.{TransactionDetails, transaction_create}

abbrev pub Ledger : Type 0
Ledger = String → Option ℤ

-- The ledger that the tables stand for.
abbrev pub ledger_of : Tables → Ledger
ledger_of t who = Option.map (λ (w : Wallet). w.balance) (find (at_address who) t.wallets)

abbrev pub add_at : String → ℤ → Ledger → Ledger
add_at a d l who = if str_eq who a then Option.map (λ b. b +ℤ d) (l who) else l who

-- A payment on the ledger.
abbrev pub pay : String → String → ℤ → Ledger → Ledger
pay from to amount l = add_at to amount (add_at from (neg_ℤ amount) l)

find-moved_same :
    (a : String) (d : ℤ) (ws : List Wallet)
    → Option.map
        (λ (w : Wallet). w.balance)
        (find (at_address a) (update_where (at_address a) (with_change d) ws))
      ≡ Option.map (λ b. b +ℤ d) (Option.map (λ (w : Wallet). w.balance) (find (at_address a) ws))
find-moved_same a d [] = refl
find-moved_same a d (w ∷ ws) = elim (Bool-cases (str_eq w.address a)) [
  | inl here ↦ rw here (rw here refl)
  | inr there ↦ rw there (rw there (find-moved_same a d ws))
]

ledger_of-moved :
    (who a : String) (d : ℤ) (t : Tables)
    → ledger_of (moved a d t) who ≡ add_at a d (ledger_of t) who
ledger_of-moved who a d t = elim (Bool-cases (str_eq who a)) [
  | inl here ↦
      let same : who ≡ a = (eq_iff who a).0 here in rw (here, same) (find-moved_same a d t.wallets)
  | inr there ↦
      let apart : str_eq a who ≡ false = ground (arith, there, eq_iff a who, eq_iff who a) in
      rw there
        (ap (λ o. Option.map (λ (w : Wallet). w.balance) o) (find-moved a who d t.wallets apart))
]

-- Where no message to the database is lost, a payment that every check lets through makes of the ledger that the committed tables stand for the one in which
-- the amount has gone from the payer to the payee, and does nothing else to any address.
pub transaction_create-refines :
    (x : Externals) (details : TransactionDetails) (w : World) (a : Acceptable x details w)
    (who : String)
    → ledger_of (transaction_create x details (calm w)).1.committed who
      ≡ pay a.sender.address a.recipient.address
          (x.round_dp2 details.amount)
          (ledger_of w.committed)
          who
transaction_create-refines x details w a who =
    let debited = moved a.sender.address (neg_ℤ (x.round_dp2 details.amount)) w.committed in
    ap (λ r. ledger_of r.1.committed who) (transaction_create-pays x details w a)
    ∙ ap (λ t. ledger_of t who)
        (sym (
          paid-settled (data_of x details w a) w.serials.transaction_id w.now w.committed
            a.positive))
    ∙ ledger_of-moved who a.recipient.address (x.round_dp2 details.amount) debited
    ∙ ap
        (λ o.
          if str_eq who a.recipient.address
          then Option.map (λ b. b +ℤ x.round_dp2 details.amount) o
          else o)
        (ledger_of-moved who a.sender.address (neg_ℤ (x.round_dp2 details.amount)) w.committed)
