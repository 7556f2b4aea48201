-- ===== src/Database/Transactions/Booked.antt =====
-- What the addresses hold in `wallets`, and what the rows of `transactions` say they were paid: the
-- rows that src/database/transaction.rs writes, and the updates of src/database/wallet.rs.
use kromer.Prelude.{
  ℤ, pos, ◌+ℤ◌, neg_ℤ, int_laws, String, str_eq, eq_iff, ◌≡◌, refl, ap, ◌∙◌, Option, none, some,
  List, [], ◌∷◌, find, push, update_where, if◌then◌else◌, false, Bool-cases, inl, inr, arith,
}
use kromer.Database.{Wallet, Transaction}
use kromer.Database.Wallets.{at_address, with_change}
use kromer.Database.Wallets.Runs.{find-moved}

-- What an address holds; without a wallet it holds nothing.
abbrev pub balance_or_zero : Option Wallet → ℤ
balance_or_zero none = pos 0
balance_or_zero (some w) = w.balance

abbrev pub held : String → List Wallet → ℤ
held who ws = balance_or_zero (find (at_address who) ws)

-- What a row has brought to an address, and taken from it.
abbrev pub received : String → Transaction → ℤ
received who r = if str_eq who r.to then r.amount else pos 0

abbrev pub sent_by : String → ℤ → Option String → ℤ
sent_by who amount none = pos 0
sent_by who amount (some from) = if str_eq who from then neg_ℤ amount else pos 0

-- The sum over the rows of `transactions`.
abbrev pub booked : String → List Transaction → ℤ
booked who [] = pos 0
booked who (r ∷ rs) = received who r +ℤ sent_by who r.amount r.from +ℤ booked who rs

pub booked-push :
    (who : String) (rs : List Transaction) (r : Transaction)
    → booked who (push rs r) ≡ booked who rs +ℤ (received who r +ℤ sent_by who r.amount r.from)
booked-push who [] r = omega int_laws
booked-push who (q ∷ rs) r = rw (booked-push who rs r) (omega int_laws)

pub held-push :
    (who : String) (ws : List Wallet) (w : Wallet)
    → w.balance ≡ pos 0
    → held who (push ws w) ≡ held who ws
held-push who [] w empty = elim (Bool-cases (str_eq w.address who)) [
  | inl here ↦ rw here empty
  | inr there ↦ rw there refl
]
held-push who (v ∷ ws) w empty = elim (Bool-cases (str_eq v.address who)) [
  | inl here ↦ rw here refl
  | inr there ↦ rw there (held-push who ws w empty)
]

-- A change at an address where there is a wallet.
abbrev pub shift : String → ℤ → (String → ℤ) → String → ℤ
shift a d g who = g who +ℤ (if str_eq who a then d else pos 0)

held-moved_same :
    (a : String) (d : ℤ) (ws : List Wallet) (v : Wallet)
    → find (at_address a) ws ≡ some v
    → held a (update_where (at_address a) (with_change d) ws) ≡ held a ws +ℤ d
held-moved_same a d (w ∷ ws) v h = elim (Bool-cases (str_eq w.address a)) [
  | inl here ↦ rw here (rw here refl)
  | inr there ↦ rw there (rw there (held-moved_same a d ws v (rw there at h)))
]
held-moved_same a d [] v h = absurd (cc)

pub held-moved :
    (who a : String) (d : ℤ) (ws : List Wallet) (v : Wallet)
    → find (at_address a) ws ≡ some v
    → held who (update_where (at_address a) (with_change d) ws)
      ≡ held who ws +ℤ (if str_eq who a then d else pos 0)
held-moved who a d ws v h = elim (Bool-cases (str_eq who a)) [
  | inl here ↦
      let same : who ≡ a = (eq_iff who a).0 here in rw (here, same) (held-moved_same a d ws v h)
  | inr there ↦
      let apart : str_eq a who ≡ false = ground (arith, there, eq_iff a who, eq_iff who a) in
      rw there (ap balance_or_zero (find-moved a who d ws apart) ∙ add_nothing (held who ws))
]
  where
    add_nothing : (b : ℤ) → b ≡ b +ℤ pos 0
    add_nothing b = omega int_laws
