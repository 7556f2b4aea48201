-- ===== src/Examples/Runs.antt =====
-- The theorems at concrete states and requests.
use kromer.Prelude.{
  neg_ℤ, abs_ℤ, ◌+ℤ◌, ◌-ℤ◌, arith, ◌≡◌, refl, none, some, List, [], ◌∷◌, true, false,
}
use kromer.Database.Externals.{make_v2_address}
use kromer.Examples.Digest.{demo_sha256}
use kromer.Examples.{simple, alice, bob, shop, world, two_kromer, to_bob, to_the_shop}
use kromer.Database.Wallets.Runs.{calm}
use kromer.Database.Wallets.Total.{total, UniqueAddresses}
use kromer.Database.Names.Unique.{UniqueNames}
use kromer.Database.Wallets.{key_hash, fits_wallet}
use kromer.Database.Transactions.{accepts_transaction}
use kromer.Database.Transactions.NameData.{parse}
use kromer.Exec.{World, ok}
use kromer.Models.{transaction_json}
use kromer.Models.Messages.{WebSocketMessageInner}
use kromer.Routes.Atomic.{Atomic, transaction_create-Atomic}
use kromer.Routes.Atomic.Purchases.{AtomicPurchase, name_register-Atomic}
use kromer.Routes.Ledger.{ledger_of, pay, transaction_create-refines}
use kromer.Routes.Names.{name_register}
use kromer.Validation.{trim}
use kromer.Routes.Pays.{Acceptable, by_name, transaction_create-pays, row_of, announced}
use kromer.Routes.Overdraft.Requests.{serve_all-Funded}
use kromer.Database.Wallets.Funds.{Funded}
use kromer.Database.Transactions.Booked.{held, booked}
use kromer.Routes.Serving.{
  Request, transfer, register, message, serve_all, total-serve_all, serve_all-UniqueAddresses,
  serve_all-UniqueNames, serve_all-Audited,
}
use kromer.Routes.Transactions.{transaction_create, is_name}

abbrev requests : List Request
requests =
    transfer to_the_shop
    ∷ register "bakery" (some "aaaaaaaaa")
    ∷ message 1 (some 4)
        (WebSocketMessageInner.make_transaction (some "bbbbbbbbb") "k001000010" two_kromer none)
    ∷ []

-- The server with one lost message.
abbrev shaky : World
shaky = record world { faults = false ∷ false ∷ true ∷ [] }

total-serve_all_example :
    total (serve_all simple requests shaky).committed.wallets ≡ total shaky.committed.wallets
total-serve_all_example = total-serve_all simple requests shaky (refl, (refl, tt))

serve_all-UniqueAddresses_example :
    UniqueAddresses (serve_all simple requests shaky).committed.wallets
serve_all-UniqueAddresses_example =
    serve_all-UniqueAddresses simple requests shaky (refl, (refl, tt))

serve_all-UniqueNames_example : UniqueNames (serve_all simple requests shaky).committed.names
serve_all-UniqueNames_example = serve_all-UniqueNames simple requests shaky (refl, tt)

serve_all-Funded_example : Funded (serve_all simple requests shaky).committed.wallets
serve_all-Funded_example =
    serve_all-Funded simple requests shaky (refl, (refl, tt)) (omega arith, (omega arith, tt))

serve_all-Audited_example :
    held "k001000010" (serve_all simple requests shaky).committed.wallets
      -ℤ booked "k001000010" (serve_all simple requests shaky).committed.transactions
    ≡ held "k001000010" shaky.committed.wallets -ℤ booked "k001000010" shaky.committed.transactions
serve_all-Audited_example = serve_all-Audited simple requests shaky "k001000010"

-- The reply to the commit is lost.
abbrev unheard : World
unheard = record world {
  faults =
      false ∷ false ∷ false ∷ false ∷ false ∷ false ∷ false ∷ false ∷ false ∷ false ∷ false ∷ false
      ∷ true ∷ [];
}

transaction_create-Atomic_example :
    Atomic
      (make_v2_address simple to_bob.private_key)
      (simple.round_dp2 to_bob.amount)
      unheard
      (transaction_create simple to_bob unheard)
transaction_create-Atomic_example = transaction_create-Atomic simple to_bob unheard

name_register-Atomic_example :
    AtomicPurchase
      (simple.to_lowercase (trim "bakery"))
      (make_v2_address simple "aaaaaaaaa")
      unheard
      (name_register simple "bakery" (some "aaaaaaaaa") unheard)
name_register-Atomic_example = name_register-Atomic simple "bakery" "aaaaaaaaa" unheard

shop_acceptable : Acceptable simple to_the_shop world
unfolding make_v2_address demo_sha256 is_name parse fits_wallet accepts_transaction key_hash neg_ℤ
    ◌+ℤ◌ abs_ℤ
shop_acceptable = record {
  sender = alice;
  recipient = bob;
  to_fits = refl;
  positive = refl;
  sender_found = refl;
  key_right = refl;
  who = by_name shop refl refl refl;
  enough = refl;
  not_to_self = refl;
  payable = record {
    sender = alice;
    recipient = bob;
    unique = (refl, (refl, tt));
    sender_found = refl;
    recipient_found = refl;
    different = refl;
    sender_fits = refl;
    recipient_fits = refl;
    row_fits = refl;
  };
}

transaction_create-pays_example : transaction_create simple to_the_shop (calm world) ≡ (
  ok (transaction_json simple (row_of simple to_the_shop world shop_acceptable)),
  announced simple to_the_shop world shop_acceptable,
)
transaction_create-pays_example = transaction_create-pays simple to_the_shop world shop_acceptable

transaction_create-refines_example :
    ledger_of (transaction_create simple to_the_shop (calm world)).1.committed "klllkklllk"
    ≡ pay shop_acceptable.sender.address shop_acceptable.recipient.address
        (simple.round_dp2 to_the_shop.amount)
        (ledger_of world.committed)
        "klllkklllk"
transaction_create-refines_example =
    transaction_create-refines simple to_the_shop world shop_acceptable "klllkklllk"
