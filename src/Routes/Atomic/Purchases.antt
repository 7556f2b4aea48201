-- ===== src/Routes/Atomic/Purchases.antt =====
-- Purchases of names by `POST /names/{name}`, src/routes/krist/names.rs, whichever messages to the database
-- are lost: the payment and the name are recorded together or not at all.
use mathlib.Core.Path.{subst, sym}
use kromer.Prelude.{
  ◌⊎◌, inl, inr, ℕ, pos, ◌+ℤ◌, String, ◌≡◌, refl, ap, some, push, Bool, true, false, if◌then◌else◌,
}
use kromer.Errors.{database}
use kromer.Errors.Krist.{krist_of_database}
use kromer.Database.{Tables, Serials, Name, Transaction}
use kromer.Database.Externals.{Externals, make_v2_address}
use kromer.Database.Keeps.{
  Both, Safe, Both-Safe, Split, before_commit, commit-Splits, Split-scoped, Yields, insert-Yields,
  Ensures-and,
}
use kromer.Database.Names.{create, insert_name, new_name, accepts_name}
use kromer.Database.Stays.{begin-Starts, same_state}
use kromer.Database.Transactions.{create_in_transaction}
use kromer.Database.Transactions.Audit.{Audited, Audited-Closed}
use kromer.Database.Transactions.Booked.{held, received, sent_by}
use kromer.Database.Transactions.Pushed.{Same, Pushed, create_impl-Pushed}
use kromer.Database.Wallets.Verified.{verify_address-LivesAt}
use kromer.Exec.{krist_from_sqlx, from_sqlx, Outcome, ok, err, panic, World, current, ok_or}
use kromer.Exec.Ensures.{
  After, Ensures, Ensures-weaken, Ensures-after, Ensures-pure, Ensures-bind, Ensures-scoped,
  Ensures-throw_if, Ensures-map_err, Keeps-bind, given,
}
use kromer.Routes.Atomic.{
  rest, Still, Audited-rest, accounted, wallet_inserted-Same, fetch_by_name-Same,
}
use kromer.Routes.Keeps.{register_in_transaction-Keeps, refuse_taken-Keeps, broadcast_event-Keeps}
use kromer.Routes.Names.{register_in_transaction, name_register}
use kromer.Validation.{trim}

-- The rows of a purchase of the name `n` by the owner of the address `from`.
pub record Added (t : Tables) (n from : String) (u : Tables) : Type 0 where
  pub row : Transaction
  pub added : Name
  pub transactions : u.transactions ≡ push t.transactions row
  pub names : u.names ≡ push t.names added
  pub sender : row.from ≡ some from
  pub is_amount : row.amount ≡ pos 50000
  pub is_name : added.name ≡ n
  pub owner : added.owner ≡ from

-- The whole of a purchase: with its rows, the balances have changed as the payment says.
pub record Bought (t : Tables) (n from : String) (u : Tables) : Type 0 where
  pub rows : Added t n from u
  pub accounts :
      (who : String)
      → held who u.wallets
        ≡ held who t.wallets +ℤ (received who rows.row +ℤ sent_by who rows.row.amount rows.row.from)

-- A purchase that is answered was made as a whole; of one that is not, either all is committed or nothing.
abbrev pub AtomicPurchase :
    {E A : Type 0} → (n from : String) → World → Outcome E A × World → Type 0
AtomicPurchase n from w (ok a, w') = Bought w.committed n from w'.committed
AtomicPurchase n from w (err e, w') =
    (w'.committed ≡ w.committed) ⊎ Bought w.committed n from w'.committed
AtomicPurchase n from w (panic, w') =
    (w'.committed ≡ w.committed) ⊎ Bought w.committed n from w'.committed

module _ (t : Tables) where
  insert_name-Added :
      (n o : String) (r : Transaction) (s : Serials) (now : ℕ) (u : Tables)
      → Pushed t o (pos 50000) r u
      → Yields (λ a. Added t n o) (insert_name n o s now u)
  unfolding insert_name
  insert_name-Added n o r s now u h = either (accepts_name s.name_id u.names n o)
    where
      either :
          (b : Bool)
          → Yields
              (λ a. Added t n o)
              (if b
                then ok (
                  new_name s.name_id now n o,
                  record u { names = push u.names (new_name s.name_id now n o) },
                )
                else err database)
      either true = record {
        row = r;
        added = new_name s.name_id now n o;
        transactions = h.transactions;
        names = ap (λ l. push l (new_name s.name_id now n o)) h.names;
        sender = h.sender;
        is_amount = h.is_amount;
        is_name = refl;
        owner = refl;
      }
      either false = tt

  module _ (x : Externals) (C : Tables → Type 0) where
    register_in_transaction-Added :
        (n key : String)
        → Ensures
            (Both C (Same t))
            (λ _. Both C (Added t n (make_v2_address x key)))
            (Safe C)
            (register_in_transaction x n key)
    unfolding register_in_transaction create_in_transaction create
    register_in_transaction-Added n key =
        Keeps-bind _ _ (Ensures-map_err krist_of_database _ (fetch_by_name-Same x t C n)) λ o.
          Keeps-bind _ _ (refuse_taken-Keeps o) λ _.
            Ensures-bind _ _
              (Ensures-map_err krist_of_database _
                (verify_address-LivesAt x (wallet_inserted-Same x t C) key))
              λ v. given λ lives. Keeps-bind _ _ (Ensures-throw_if _ _ Both-Safe) λ _.
                Keeps-bind _ _ (Ensures-throw_if _ _ Both-Safe) λ _.
                  Ensures-bind _ _ (Ensures-map_err krist_of_database _ (create_impl-Pushed t C _))
                    λ r. Keeps-bind _ _ (broadcast_event-Keeps _) λ _.
                      Ensures-map_err krist_of_database _ (
                        Ensures-weaken _
                          (λ a w h. record {
                            outside = h.outside;
                            inside = subst (λ b. Added t n b (current w)) lives h.inside;
                          })
                          (λ w h. h)
                          (Ensures-map_err from_sqlx _ (
                            insert-Yields (λ a. Added t n v.wallet.address) _ _
                              (insert_name-Added n v.wallet.address r))))

module _ (x : Externals) (t : Tables) (raw key : String) where
  abbrev Whole : Tables → Type 0
  Whole = Bought t (x.to_lowercase (trim raw)) (make_v2_address x key)

  register_in_transaction-Bought :
      Ensures
        (Both (Still t) (Still t))
        (λ _. Both (Still t) Whole)
        (Safe (Still t))
        (register_in_transaction x (x.to_lowercase (trim raw)) key)
  register_in_transaction-Bought =
      Ensures-after _
        (λ w h. record {
          outside = h.outside;
          inside =
              subst (λ u. Same t u × Audited (rest t) u) (sym h.inside)
                (record { transactions = refl; names = refl }, Audited-rest t);
        })
        (Ensures-weaken _
          (λ r w h. record {
            outside = h.outside;
            inside = record {
              rows = h.inside.0;
              accounts = accounted t h.inside.0.row (current w) h.inside.0.transactions h.inside.1;
            };
          })
          (λ w h. h)
          (Ensures-and _ (register_in_transaction-Added t x (Still t) _ key)
            (register_in_transaction-Keeps (Audited-Closed (rest t)).moves x (Still t) _ key)))

  name_register-Splits :
      Ensures
        (Safe (Still t))
        (λ _. Safe Whole)
        (Split (Still t) Whole)
        (name_register x raw (some key))
  unfolding name_register ok_or
  name_register-Splits =
      Ensures-scoped _ (λ r w h. record { outside = h.outside }) Split-scoped
        (Ensures-bind _ _
          (before_commit
            (Ensures-pure (λ k w. Safe (Still t) w × (k ≡ key)) key (λ w h. (h, refl))))
          λ k. given λ same. Keeps-bind _ _ (before_commit (Ensures-throw_if _ _ same_state)) λ _.
            Ensures-bind _ _ (before_commit (Ensures-map_err krist_from_sqlx _ begin-Starts)) λ _.
              Ensures-bind _ _
                (before_commit (
                  subst
                    (λ k.
                      Ensures (Both (Still t) (Still t)) (λ _. Both (Still t) Whole)
                        (Safe (Still t)) (register_in_transaction x (x.to_lowercase (trim raw)) k))
                    (sym same) register_in_transaction-Bought))
                λ r.
                  Ensures-bind _ _ (Ensures-map_err krist_from_sqlx _ commit-Splits)
                    λ _. Ensures-pure (λ _. Safe Whole) _ (λ w h. record { outside = h.outside }))

module _ (n from : String) (w : World) where
  either_way :
      (w' : World)
      → Split (Still w.committed) (Bought w.committed n from) w'
      → (w'.committed ≡ w.committed) ⊎ Bought w.committed n from w'.committed
  either_way w' (inl h) = inl h.outside
  either_way w' (inr h) = inr h.outside

  all_or_nothing :
      {E A : Type 0} (r : Outcome E A × World)
      → After
          (λ _. Safe (Bought w.committed n from))
          (Split (Still w.committed) (Bought w.committed n from))
          r
      → AtomicPurchase n from w r
  all_or_nothing (ok a, w') h = h.outside
  all_or_nothing (err e, w') h = either_way w' h
  all_or_nothing (panic, w') h = either_way w' h

-- Whichever messages to the database and back are lost, a purchase with a key is made as a whole or not at
-- all. If it is answered, a payment of 500.00 from the address of the key and the name, with this
-- address for its owner, are committed, and every balance has changed by what the payment says; if it
-- is not, either that is so, or the committed tables are as they were.
pub name_register-Atomic :
    (x : Externals) (raw key : String) (w : World)
    → AtomicPurchase
        (x.to_lowercase (trim raw))
        (make_v2_address x key)
        w
        (name_register x raw (some key) w)
name_register-Atomic x raw key w =
    all_or_nothing _ _ w (name_register x raw (some key) w)
      ((name_register-Splits x w.committed raw key).at w (record { outside = refl }))
