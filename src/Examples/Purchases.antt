-- ===== src/Examples/Purchases.antt =====
-- A purchase of a name, and requests that are answered, at concrete states.
use kromer.Prelude.{
  pos, neg_ℤ, abs_ℤ, ◌+ℤ◌, ◌≡◌, refl, none, some, true, false, str_eq, eq_iff, [], ◌∷◌,
}
use kromer.Database.{Wallet}
use kromer.Database.Externals.{make_v2_address}
use kromer.Database.Names.{accepts_name}
use kromer.Database.Transactions.{accepts_transaction}
use kromer.Database.Wallets.{fits_wallet, key_hash}
use kromer.Database.Wallets.Runs.{calm}
use kromer.Examples.{simple, alice, wallet_of, shop, tables, world, two_kromer}
use kromer.Examples.Digest.{demo_sha256}
use kromer.Exec.{World, ok}
use kromer.Models.{name_json}
use kromer.Models.Messages.{WebSocketMessageInner}
use kromer.Routes.Names.{name_register}
use kromer.Routes.Registers.{Purchase, bought, after, name_register-registers}
use kromer.Routes.Serving.{Request, message, give, serve}
use kromer.Routes.Ownership.{serve-OwnedBy}
use kromer.Database.Names.Owned.{OwnedBy}
use kromer.Routes.Routing.{Method, Endpoint, handled}
use kromer.Routes.Routing.Table.{route, method_of, path_of}
use kromer.Routes.Routing.Reached.{route-path_of}
use kromer.Routes.Routing.Guarded.{route-guarded}
use kromer.Routes.Sound.Messages.{Answered, serve-Answered}
use kromer.Validation.{is_valid_name, trim}
use kromer.WebSockets.Server.{get}

-- Alice has become rich, and the wallet that is paid for names is there.
abbrev rich : Wallet
rich = record alice { balance = pos 70000 }

abbrev market : World
market = record world {
  committed = record tables { wallets = rich ∷ wallet_of 3 "serverwelf" (pos 0) ∷ [] };
}

abbrev by_bob : Request
by_bob =
    message 1 none
      (WebSocketMessageInner.make_transaction (some "bbbbbbbbb") "k001000010" two_kromer none)

abbrev by_alice : Request
by_alice = give "shop" (record { address = "k001000010"; private_key = "aaaaaaaaa" })

not_bob : ¬ (make_v2_address simple "aaaaaaaaa" ≡ "klllkklllk")
unfolding make_v2_address demo_sha256
not_bob e =
    let same : str_eq "k001000010" "klllkklllk" ≡ true = (eq_iff "k001000010" "klllkklllk").1 e in
    absurd (cc)

bakery_purchase : Purchase simple "bakery" "aaaaaaaaa" market
unfolding make_v2_address demo_sha256 fits_wallet accepts_transaction accepts_name key_hash neg_ℤ
    ◌+ℤ◌ abs_ℤ is_valid_name trim
bakery_purchase = record {
  buyer = rich;
  valid = refl;
  free = refl;
  buyer_found = refl;
  key_right = refl;
  enough = refl;
  payable = record {
    sender = rich;
    recipient = wallet_of 3 "serverwelf" (pos 0);
    unique = (refl, (refl, tt));
    sender_found = refl;
    recipient_found = refl;
    different = refl;
    sender_fits = refl;
    recipient_fits = refl;
    row_fits = refl;
  };
  name_fits = refl;
}

name_register-registers_example : name_register simple "bakery" (some "aaaaaaaaa") (calm market) ≡ (
  ok (name_json simple (bought simple "bakery" "aaaaaaaaa" market bakery_purchase)),
  after simple "bakery" "aaaaaaaaa" market bakery_purchase,
)
name_register-registers_example =
    name_register-registers simple "bakery" "aaaaaaaaa" market bakery_purchase

serve-Answered_example : Answered simple (message 1 (some 4) WebSocketMessageInner.me) world
unfolding get
serve-Answered_example =
    serve-Answered simple (message 1 (some 4) WebSocketMessageInner.me) world tt

route-path_of_example :
    route false (method_of (Endpoint.name_get "shop")) (path_of (Endpoint.name_get "shop"))
    ≡ handled (Endpoint.name_get "shop")
route-path_of_example = route-path_of false (Endpoint.name_get "shop") (refl, (refl, (refl, refl)))

route-guarded_example : ¬ (
    route false Method.post ("api" ∷ "_internal" ∷ "wallet" ∷ "create" ∷ [])
    ≡ handled Endpoint.wallet_create)
route-guarded_example =
    route-guarded Method.post ("api" ∷ "_internal" ∷ "wallet" ∷ "create" ∷ [])
      Endpoint.wallet_create tt

-- Alice may not take Bob's shop.
serve-OwnedBy_example : OwnedBy "shop" "klllkklllk" (serve simple by_alice world).committed.names
unfolding make_v2_address demo_sha256
serve-OwnedBy_example =
    serve-OwnedBy simple by_alice world "shop" "klllkklllk" (λ same. not_bob same.1)
      (shop, (refl, refl))
