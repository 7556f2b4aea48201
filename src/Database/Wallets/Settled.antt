-- ===== src/Database/Wallets/Settled.antt =====
-- What a payment makes of the rows of `wallets`, written out, and the two updates of
-- src/database/transaction.rs that do it.
use kromer.Prelude.{
  ℕ, ℤ, pos, ◌+ℤ◌, ◌-ℤ◌, neg_ℤ, abs_ℤ, ltb_ℤ, leb_ℤ, int_laws, String, ◌≡◌, refl, ap, ◌∙◌, List, [],
  ◌∷◌, update_where, push, Bool, true, false, arith,
}
use kromer.Database.{Tables, Wallet, Transaction, TransactionCreateData}
use kromer.Database.Transactions.{full_row}
use kromer.Database.Transactions.Runs.{paid}
use kromer.Database.Wallets.{at_address, with_change}

-- The row of the payee.
abbrev pub credited : ℤ → Wallet → Wallet
credited amount v = record v {
  balance = v.balance +ℤ amount;
  total_in = v.total_in +ℤ amount;
  total_out = abs_ℤ v.total_out;
}

-- The row of the payer.
abbrev pub debited : ℤ → Wallet → Wallet
debited amount v = record v {
  balance = v.balance -ℤ amount;
  total_out = abs_ℤ v.total_out +ℤ amount;
}

-- The tables after `amount` has gone from one address to the other, with the row `r`.
abbrev pub settled : String → String → ℤ → Transaction → Tables → Tables
settled from to amount r t = record t {
  wallets =
      update_where (at_address to) (credited amount)
        (update_where (at_address from) (debited amount) t.wallets);
  transactions = push t.transactions r;
}

update_where_ext :
    (p : Wallet → Bool) (f g : Wallet → Wallet)
    → ((v : Wallet) → f v ≡ g v)
    → (l : List Wallet) → update_where p f l ≡ update_where p g l
update_where_ext p f g h [] = refl
update_where_ext p f g h (v ∷ l) = rw (h v, update_where_ext p f g h l) refl

module _ (d : ℤ) (positive : leb_ℤ d (pos 0) ≡ false) where
  above : ltb_ℤ (pos 0) d ≡ true
  above = ground (arith, positive)

  not_below : ltb_ℤ d (pos 0) ≡ false
  not_below = ground (arith, positive)

  negative : ltb_ℤ (neg_ℤ d) (pos 0) ≡ true
  unfolding neg_ℤ
  negative = ground (arith, positive)

  negative_not_above : ltb_ℤ (pos 0) (neg_ℤ d) ≡ false
  unfolding neg_ℤ
  negative_not_above = ground (arith, positive)

  abs-neg : abs_ℤ (neg_ℤ d) ≡ d
  unfolding abs_ℤ neg_ℤ
  abs-neg = ground (arith, positive)

  add_nothing : (b : ℤ) → b +ℤ pos 0 ≡ b
  add_nothing b = omega int_laws

  less : (b : ℤ) → b +ℤ neg_ℤ d ≡ b -ℤ d
  less b = omega int_laws

  with_change-credited : (v : Wallet) → with_change d v ≡ credited d v
  with_change-credited v = rw (above, not_below, add_nothing (abs_ℤ v.total_out)) refl

  with_change-debited : (v : Wallet) → with_change (neg_ℤ d) v ≡ debited d v
  with_change-debited v =
      rw (negative, negative_not_above, add_nothing v.total_in, less v.balance, abs-neg) refl

pub paid-settled :
    (d : TransactionCreateData) (id now : ℕ) (t : Tables)
    → leb_ℤ d.amount (pos 0) ≡ false
    → paid d id now t ≡ settled d.from d.to d.amount (full_row d id now) t
paid-settled d id now t positive =
    let less = update_where_ext (at_address d.from) _ _ (with_change-debited d.amount positive) in
    let more = update_where_ext (at_address d.to) _ _ (with_change-credited d.amount positive) in
    ap (λ ws. record t { wallets = ws; transactions = push t.transactions (full_row d id now) })
      (more _ ∙ ap (λ ws. update_where (at_address d.to) (credited d.amount) ws) (less t.wallets))
