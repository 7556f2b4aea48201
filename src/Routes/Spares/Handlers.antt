-- ===== src/Routes/Spares/Handlers.antt =====
-- The HTTP handlers of src/routes/krist and the wallets whose keys a request does not have.
use mathlib.Core.Path.{subst}
use kromer.Exec.{krist_from_sqlx}
use kromer.Prelude.{
  ℤ, pos, neg_ℤ, ◌≤ℤ◌, String, str_eq, ◌≡◌, refl, Option, false, int_laws, arith, if◌then◌else◌,
  Bool, true,
}
use kromer.Errors.Krist.{krist_of_database}
use kromer.Database.{Name, TransactionCreateData}
use kromer.Database.Closed.{
  Keeps, keeps_rules, create-Keeps, fetch_by_name-Keeps, update_ownership-Keeps,
  verify_address-Keeps,
}
use kromer.Database.Externals.{Externals, make_v2_address}
use kromer.Database.Keeps.{Both-Safe, Keeps-commit}
use kromer.Database.Transactions.{create_in_transaction}
use kromer.Database.Wallets.Funds.{positive_lem}
use kromer.Database.Wallets.Verified.{verify_address-LivesAt}
use kromer.Exec.Ensures.{Ensures-bind, Ensures-throw_if, Ensures-map_err, Keeps-bind, given}
use kromer.Routes.Keeps.{
  Always, begin-Keeps, scoped-Keeps, refuse_taken-Keeps, broadcast_event-Keeps,
}
use kromer.Routes.Names.{
  TransferNameRequest, register_in_transaction, name_register, name_transfer_data, hand_over,
  name_transfer_route,
}
use kromer.Routes.Overdraft.{recipient_of-Reads}
use kromer.Routes.Owners.{ok_or-Yields, throw_if-Yields}
use kromer.Routes.Spares.{
  Lacks, Holds, Holds-Rows, owner-Holds, Spares, elsewhere-Spares, create_impl-Holds,
}
use kromer.Routes.Transactions.{TransactionDetails, transfer_in_transaction, transaction_create}

nothing_lost : (c : Bool) → pos 0 ≤ℤ (if c then neg_ℤ (pos 0) else pos 0)
nothing_lost true = omega int_laws
nothing_lost false = omega arith

-- The record of a transfer of a name moves nothing.
free-Spares : (a : String) (d : TransactionCreateData) → d.amount ≡ pos 0 → Spares a d
free-Spares a d free = record {
  gain = rw free (omega arith);
  spared = rw free (nothing_lost (str_eq a d.from));
}

module _ (x : Externals) (a : String) (b : ℤ) where
  transfer_in_transaction-Holds :
      (details : TransactionDetails) (amount : ℤ)
      → pos 0 ≤ℤ amount
      → str_eq a (make_v2_address x details.private_key) ≡ false
      → Keeps (Holds a b) (Holds a b) (transfer_in_transaction x details amount)
  unfolding transfer_in_transaction create_in_transaction
  transfer_in_transaction-Holds details amount gain other =
      Ensures-bind _ _
        (Ensures-map_err krist_of_database _ (
          verify_address-LivesAt x (Holds-Rows {a = a} {b = b}).wallet_inserted
            details.private_key))
        λ v. given λ lives. Keeps-bind _ _ (Ensures-throw_if _ _ Both-Safe) λ _.
          Keeps-bind _ _ (recipient_of-Reads _ _ _) λ recipient.
            Keeps-bind _ _ (Ensures-throw_if _ _ Both-Safe) λ _.
              Keeps-bind _ _ (Ensures-throw_if _ _ Both-Safe) λ _.
                Ensures-map_err krist_of_database _
                  (create_impl-Holds (Holds a b) _ (elsewhere-Spares a _ gain (rw lives other)))

  pub transaction_create-Holds :
      (details : TransactionDetails)
      → str_eq a (make_v2_address x details.private_key) ≡ false
      → Always (Holds a b) (transaction_create x details)
  unfolding transaction_create
  transaction_create-Holds details other = scoped-Keeps _ (
      Keeps-bind _ _ (Ensures-throw_if _ _ Both-Safe) λ _.
        Ensures-bind _ _ (throw_if-Yields _ _ Both-Safe) λ _. given λ positive.
          Keeps-bind _ _ (Ensures-map_err krist_from_sqlx _ begin-Keeps) λ _.
            Keeps-bind _ _ (transfer_in_transaction-Holds details _ (positive_lem _ positive) other)
              λ r. search (keeps_rules, Keeps-commit, broadcast_event-Keeps) depth 10)

  register_in_transaction-Holds :
      (key : String)
      → str_eq a (make_v2_address x key) ≡ false
      → (n : String) → Keeps (Holds a b) (Holds a b) (register_in_transaction x n key)
  unfolding register_in_transaction create_in_transaction
  register_in_transaction-Holds key other n =
      Keeps-bind _ _
        (Ensures-map_err krist_of_database _ (fetch_by_name-Keeps Holds-Rows x (Holds a b) _ n))
        λ found. Keeps-bind _ _ (refuse_taken-Keeps found) λ _.
          Ensures-bind _ _
            (Ensures-map_err krist_of_database _
              (verify_address-LivesAt x (Holds-Rows {a = a} {b = b}).wallet_inserted key))
            λ v. given λ lives. Keeps-bind _ _ (Ensures-throw_if _ _ Both-Safe) λ _.
              Keeps-bind _ _ (Ensures-throw_if _ _ Both-Safe) λ _.
                Keeps-bind _ _
                  (Ensures-map_err krist_of_database _ (
                    create_impl-Holds (Holds a b) _
                      (elsewhere-Spares a _ (omega arith) (rw lives other))))
                  λ t. Keeps-bind _ _ (broadcast_event-Keeps _) λ _.
                    Ensures-map_err krist_of_database _
                      (create-Keeps Holds-Rows x (Holds a b) n v.wallet.address)

  pub name_register-Holds :
      (n : String) (key : Option String)
      → Lacks x a key
      → Always (Holds a b) (name_register x n key)
  unfolding name_register
  name_register-Holds n key lacks = scoped-Keeps _ (
      Ensures-bind _ _ (ok_or-Yields key _ Both-Safe) λ k. given λ same.
        Keeps-bind _ _ (Ensures-throw_if _ _ Both-Safe) λ _.
          Keeps-bind _ _ (Ensures-map_err krist_from_sqlx _ begin-Keeps) λ _.
            Keeps-bind _ _ (register_in_transaction-Holds k (subst (Lacks x a) same lacks) _)
              λ r. search (keeps_rules, Keeps-commit) depth 10)

  handed_over-Holds :
      (n : Name) (to : String)
      → Keeps (Holds a b) (Holds a b) (create_in_transaction (name_transfer_data n to))
  unfolding create_in_transaction
  handed_over-Holds n to = create_impl-Holds (Holds a b) _ (free-Spares a _ refl)

  hand_over-Holds : (n : Name) (to : String) → Keeps (Holds a b) (Holds a b) (hand_over x n to)
  unfolding hand_over
  hand_over-Holds n to =
      search
        (
          keeps_rules,
          update_ownership-Keeps owner-Holds (Holds a b),
          handed_over-Holds,
          Keeps-commit,
          broadcast_event-Keeps,
        )
        depth 16

  pub name_transfer_route-Holds :
      (n : String) (details : TransferNameRequest)
      → Always (Holds a b) (name_transfer_route x n details)
  unfolding name_transfer_route
  name_transfer_route-Holds n details = scoped-Keeps _ (
      search
        (
          keeps_rules,
          begin-Keeps,
          verify_address-Keeps Holds-Rows x (Holds a b),
          fetch_by_name-Keeps Holds-Rows x (Holds a b),
          hand_over-Holds,
        )
        depth 22)
