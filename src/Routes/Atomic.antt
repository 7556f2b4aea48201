-- ===== src/Routes/Atomic.antt =====
-- Payments by `POST /transactions`, src/routes/krist/transactions.rs, whichever messages to the database
-- are lost: a payment is made as a whole or not at all.
pub mod Purchases
use mathlib.Core.Path.{subst, sym}
use kromer.Prelude.{
  ◌⊎◌, inl, inr, ℤ, pos, ◌+ℤ◌, ◌-ℤ◌, int_laws, String, ◌≡◌, refl, ap, ◌∙◌, Bool, push,
}
use kromer.Errors.Krist.{krist_of_database}
use kromer.Database.{Tables, Transaction}
use kromer.Database.Closed.{Keeps, keeps_rules}
use kromer.Database.Externals.{Externals, make_v2_address}
use kromer.Database.Keeps.{
  Both, Safe, Both-Safe, Split, before_commit, commit-Splits, Split-scoped, Writes, Writes-check,
  Keeps-query, Ensures-and,
}
use kromer.Database.Names.{fetch_by_name, owner}
use kromer.Database.Statements.{tx}
use kromer.Database.Stays.{begin-Starts, same_state}
use kromer.Database.Transactions.{create_in_transaction}
use kromer.Database.Transactions.Audit.{Audited, Audited-Closed}
use kromer.Database.Transactions.Booked.{held, booked, booked-push, received, sent_by}
use kromer.Database.Transactions.NameData.{TransactionNameData}
use kromer.Database.Transactions.Pushed.{Same, Pushed, create_impl-Pushed, fetch_by_address-Same}
use kromer.Database.Wallets.{insert_wallet, accepts_wallet}
use kromer.Database.Wallets.Verified.{verify_address-LivesAt}
use kromer.Exec.{krist_from_sqlx, from_sqlx, Outcome, ok, err, panic, World, current}
use kromer.Exec.Ensures.{
  After, Ensures, Ensures-weaken, Ensures-pure, Ensures-bind, Ensures-scoped, Ensures-throw_if,
  Ensures-map_err, Ensures-after, Keeps-bind, given,
}
use kromer.Routes.Keeps.{transfer_in_transaction-Keeps, broadcast_event-Keeps}
use kromer.Routes.Transactions.{
  TransactionDetails, owner_of_name, wallet_at, recipient_of, transfer_in_transaction,
  transaction_create,
}

-- The whole of a payment of `amount` with the key of the address `from`: one row, which accounts for every change of a
-- balance.
pub record Made (t : Tables) (from : String) (amount : ℤ) (u : Tables) : Type 0 where
  pub row : Transaction
  pub pushed : Pushed t from amount row u
  pub accounts :
      (who : String)
      → held who u.wallets
        ≡ held who t.wallets +ℤ (received who row +ℤ sent_by who row.amount row.from)

abbrev pub Still : Tables → Tables → Type 0
Still t u = u ≡ t

-- A payment that is answered was made as a whole; of one that is not, either all is committed or nothing.
abbrev pub Atomic :
    {E A : Type 0} → (from : String) (amount : ℤ) → World → Outcome E A × World → Type 0
Atomic from amount w (ok a, w') = Made w.committed from amount w'.committed
Atomic from amount w (err e, w') =
    (w'.committed ≡ w.committed) ⊎ Made w.committed from amount w'.committed
Atomic from amount w (panic, w') =
    (w'.committed ≡ w.committed) ⊎ Made w.committed from amount w'.committed

-- Of what the address holds, what the rows do not account for.
abbrev pub rest : Tables → String → ℤ
rest t who = held who t.wallets -ℤ booked who t.transactions

pub Audited-rest : (t : Tables) → Audited (rest t) t
Audited-rest t = record { books = λ who. split (held who t.wallets) (booked who t.transactions) }
  where
    split : (h b : ℤ) → h ≡ h -ℤ b +ℤ b
    split h b = omega int_laws

-- What the rows account for is what the one row more says.
pub accounted :
    (t : Tables) (r : Transaction) (u : Tables)
    → u.transactions ≡ push t.transactions r
    → Audited (rest t) u
    → (who : String)
    → held who u.wallets ≡ held who t.wallets +ℤ (received who r +ℤ sent_by who r.amount r.from)
accounted t r u more a who =
    let d = received who r +ℤ sent_by who r.amount r.from in
    sums (held who u.wallets) (held who t.wallets) (booked who t.transactions)
      (booked who u.transactions) d (a.books who)
      (ap (booked who) more ∙ booked-push who t.transactions r)
  where
    sums : (h h0 b b' d : ℤ) → h ≡ h0 -ℤ b +ℤ b' → b' ≡ b +ℤ d → h ≡ h0 +ℤ d
    sums h h0 b b' d e f = rw (e, f) (omega int_laws)

module _ (x : Externals) (t : Tables) (C : Tables → Type 0) where
  pub wallet_inserted-Same :
      (a hash : String) (s : _) (now : _) (u : Tables)
      → Same t u
      → Writes (Same t) (insert_wallet a hash (pos 0) s now u)
  unfolding insert_wallet
  wallet_inserted-Same a hash s now u h =
      Writes-check (Same t) (accepts_wallet s.wallet_id u.wallets a hash (pos 0)) _ _
        λ _. record { transactions = h.transactions; names = h.names }

  pub fetch_by_name-Same : (n : String) → Keeps C (Same t) (fetch_by_name tx n)
  unfolding fetch_by_name
  fetch_by_name-Same n = Ensures-map_err from_sqlx _ (Keeps-query _ _)

  owner-Same : (n : _) → Keeps C (Same t) (owner n)
  unfolding owner
  owner-Same n = search (keeps_rules, fetch_by_address-Same t C, fetch_by_name-Same)

  recipient_of-Same :
      (b : Bool) (d : TransactionNameData) (to : String) → Keeps C (Same t) (recipient_of b d to)
  unfolding owner_of_name wallet_at
  recipient_of-Same b d to =
      search (keeps_rules, fetch_by_name-Same, owner-Same, fetch_by_address-Same t C) depth 10

  transfer_in_transaction-Pushed :
      (details : TransactionDetails) (amount : ℤ)
      → Ensures
          (Both C (Same t))
          (λ r. Both C (Pushed t (make_v2_address x details.private_key) amount r))
          (Safe C)
          (transfer_in_transaction x details amount)
  unfolding transfer_in_transaction create_in_transaction
  transfer_in_transaction-Pushed details amount =
      Ensures-bind _ _
        (Ensures-map_err krist_of_database _
          (verify_address-LivesAt x wallet_inserted-Same details.private_key))
        λ v. given λ lives. Keeps-bind _ _ (Ensures-throw_if _ _ Both-Safe) λ _.
          Keeps-bind _ _ (recipient_of-Same _ _ details.to) λ q.
            Keeps-bind _ _ (Ensures-throw_if _ _ Both-Safe) λ _.
              Keeps-bind _ _ (Ensures-throw_if _ _ Both-Safe) λ _.
                Ensures-map_err krist_of_database _ (
                  Ensures-weaken _
                    (λ r w h. record {
                      outside = h.outside;
                      inside = subst (λ a. Pushed t a amount r (current w)) lives h.inside;
                    })
                    (λ w h. h) (create_impl-Pushed t C _))

module _ (x : Externals) (t : Tables) (details : TransactionDetails) where
  abbrev payer : String
  payer = make_v2_address x details.private_key

  abbrev Whole : Tables → Type 0
  Whole = Made t (make_v2_address x details.private_key) (x.round_dp2 details.amount)

  transfer_in_transaction-Made :
      Ensures
        (Both (Still t) (Still t))
        (λ _. Both (Still t) Whole)
        (Safe (Still t))
        (transfer_in_transaction x details (x.round_dp2 details.amount))
  transfer_in_transaction-Made =
      Ensures-after _
        (λ w h. record {
          outside = h.outside;
          inside =
              subst (λ u. Same t u × Audited (rest t) u) (sym h.inside)
                (record { transactions = refl; names = refl }, Audited-rest t);
        })
        (Ensures-weaken _
          (λ r w h. record {
            outside = h.outside;
            inside = record {
              row = r;
              pushed = h.inside.0;
              accounts = accounted t r (current w) h.inside.0.transactions h.inside.1;
            };
          })
          (λ w h. h)
          (Ensures-and _
            (transfer_in_transaction-Pushed x t (Still t) details (x.round_dp2 details.amount))
            (transfer_in_transaction-Keeps (Audited-Closed (rest t)).moves x (Still t) details _)))

  transaction_create-Splits :
      Ensures
        (Safe (Still t))
        (λ _. Safe Whole)
        (Split (Still t) Whole)
        (transaction_create x details)
  unfolding transaction_create
  transaction_create-Splits =
      Ensures-scoped _ (λ r w h. record { outside = h.outside }) Split-scoped
        (Keeps-bind _ _ (before_commit (Ensures-throw_if _ _ same_state)) λ _.
          Keeps-bind _ _ (before_commit (Ensures-throw_if _ _ same_state)) λ _.
            Ensures-bind _ _ (before_commit (Ensures-map_err krist_from_sqlx _ begin-Starts)) λ _.
              Ensures-bind _ _ (before_commit transfer_in_transaction-Made) λ r.
                Ensures-bind _ _ (Ensures-map_err krist_from_sqlx _ commit-Splits) λ _.
                  Ensures-bind _ _
                    (Ensures-weaken _ (λ _ w h. h) (λ w h. inr h) (broadcast_event-Keeps _))
                    λ _. Ensures-pure (λ _. Safe Whole) _ (λ w h. record { outside = h.outside }))

module _ (from : String) (amount : ℤ) (w : World) where
  either_way :
      (w' : World)
      → Split (Still w.committed) (Made w.committed from amount) w'
      → (w'.committed ≡ w.committed) ⊎ Made w.committed from amount w'.committed
  either_way w' (inl h) = inl h.outside
  either_way w' (inr h) = inr h.outside

  all_or_nothing :
      {E A : Type 0} (r : Outcome E A × World)
      → After
          (λ _. Safe (Made w.committed from amount))
          (Split (Still w.committed) (Made w.committed from amount))
          r
      → Atomic from amount w r
  all_or_nothing (ok a, w') h = h.outside
  all_or_nothing (err e, w') h = either_way w' h
  all_or_nothing (panic, w') h = either_way w' h

-- Whichever messages to the database and back are lost, a payment by `POST /transactions` is
-- made as a whole or not at all. If it is answered, one row of the rounded amount, from the
-- address of the key, is committed, and every balance has changed by what this row says; if it
-- is not, either that is so, or the committed tables are as they were.
pub transaction_create-Atomic :
    (x : Externals) (details : TransactionDetails) (w : World)
    → Atomic
        (make_v2_address x details.private_key)
        (x.round_dp2 details.amount)
        w
        (transaction_create x details w)
transaction_create-Atomic x details w =
    all_or_nothing _ _ w (transaction_create x details w)
      ((transaction_create-Splits x w.committed details).at w (record { outside = refl }))
