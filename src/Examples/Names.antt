-- ===== src/Examples/Names.antt =====
-- The theorems about names, their texts, and gifts, at concrete inputs.
use Prim.Native.String.{◌++◌}
use kromer.Prelude.{pos, neg_ℤ, ◌+ℤ◌, abs_ℤ, ◌≡◌, refl, none, some, arith}
use kromer.Database.Paging.{AnswersAtMost, listings-AnswersAtMost}
use kromer.Database.Wallets.Listing.{fetch_richest}
use kromer.Database.Transactions.Listing.{fetch_all_no_mined}
use kromer.Database.Names.{fetch_all, all_unpaid}
use kromer.Database.{PaginationParams}
use kromer.Database.Statements.{pool}
use kromer.Database.Externals.{make_v2_address}
use kromer.Examples.Digest.{demo_sha256}
use kromer.Examples.{simple, world, shop, two_kromer}
use kromer.Database.{transfer}
use kromer.Database.Transactions.NameData.{
  parse, transaction_type_of_string, string_of_transaction_type,
}
use kromer.Database.Transactions.Parsing.{
  every, Group, parse-metaname, parse-name, transaction_type_of_string-string_of_transaction_type,
}
use kromer.Database.Names.{update_ownership_in_transaction}
use kromer.Exec.{ok, ◌>>=◌}
use kromer.Models.{NameJson, name_json}
use kromer.Routes.Gives.{Gave, wallet_give_money-Gave}
use kromer.Routes.Internal.{wallet_give_money}
use kromer.Routes.Names.{TransferNameRequest, name_transfer_route}
use kromer.Database.Names.Owned.{OwnedBy}
use kromer.Routes.Owners.{name_transfer_route-OwnedBy}
use kromer.Exec.{scoped, begin, commit, trip, replied, map_err, ok_or, pure, throw, throw_if}
use kromer.Validation.{
  is_alnum, is_valid_name, trim, is_digit, is_lower, is_space, name_fetch_re, name_re,
}
use kromer.Database.Wallets.{
  verify_address, acquire, fetch_by_address, key_hash, accepts_wallet, create_wallet, fits_wallet,
  insert_wallet, update_balance, write_wallet,
}
use kromer.Database.Statements.{
  query, update, insert, fits_text, fits_numeric, fits_optional, update_returning,
}
use kromer.Database.Names.{fetch_by_name, write_name}
use kromer.Routes.Names.{hand_over}
use kromer.Database.Transactions.{
  accepts_transaction, create_impl, create_in_transaction, insert_transaction,
}
use kromer.Errors.Krist.{krist_of_database}
use kromer.Models.Messages.{new_event}
use kromer.Models.{transaction_json}
use kromer.Validation.Matching.{derive, is_match, nullable}
use kromer.WebSockets.Broadcast.{broadcast_event, broadcast_to, deliver_all, recipients}
use kromer.Validation.{is_name_char, is_alnum}

till_Group : Group is_name_char 32 "till"
unfolding every is_name_char
till_Group = record { passes = refl; not_empty = omega arith; room = omega arith }

shop_Group : Group is_alnum 64 "shop"
unfolding every is_alnum
shop_Group = record { passes = refl; not_empty = omega arith; room = omega arith }

parse-metaname_example :
    parse ("till" ++ "@" ++ "shop" ++ ".kro")
    ≡ record { name = some "shop"; metaname = some "till" }
parse-metaname_example = parse-metaname "till" "shop" till_Group shop_Group

parse-name_example : parse ("shop" ++ ".kro") ≡ record { name = some "shop"; metaname = none }
parse-name_example = parse-name "shop" shop_Group

transaction_type_example :
    transaction_type_of_string (string_of_transaction_type transfer) ≡ transfer
transaction_type_example = transaction_type_of_string-string_of_transaction_type transfer

wallet_give_money-Gave_example :
    Gave world (pos 200) (wallet_give_money simple "klllkklllk" two_kromer world)
wallet_give_money-Gave_example =
    wallet_give_money-Gave simple "klllkklllk" two_kromer world (refl, (refl, tt))

-- Bob hands the shop over to Alice.
abbrev over : TransferNameRequest
over = record { address = "k001000010"; private_key = "bbbbbbbbb" }

abbrev shop_of_alice : NameJson
shop_of_alice =
    name_json simple
      (record shop { owner = "k001000010"; last_updated = some 7; last_transfered = some 7 })

handed_over : (name_transfer_route simple "shop" over world).0 ≡ ok shop_of_alice
unfolding make_v2_address demo_sha256 name_transfer_route ◌>>=◌ update_ownership_in_transaction
    name_json abs_ℤ neg_ℤ ◌+ℤ◌ is_name_char is_alnum scoped begin commit trip replied map_err ok_or
    pure throw throw_if is_valid_name trim is_digit is_lower is_space name_fetch_re name_re
    verify_address acquire fetch_by_address key_hash accepts_wallet create_wallet fits_wallet
    insert_wallet update_balance write_wallet query update insert fits_text fits_numeric
    fits_optional update_returning fetch_by_name write_name hand_over accepts_transaction
    create_impl create_in_transaction insert_transaction krist_of_database new_event
    transaction_json derive is_match nullable broadcast_event broadcast_to deliver_all recipients
handed_over = refl

name_transfer_route-OwnedBy_example : OwnedBy "shop" "klllkklllk" world.committed.names
unfolding make_v2_address demo_sha256 trim is_space
name_transfer_route-OwnedBy_example =
    name_transfer_route-OwnedBy simple "shop" over world shop_of_alice handed_over

abbrev all_of_them : PaginationParams
all_of_them = record { exclude_mined = none; limit = some (pos 100000); offset = none }

listings-AnswersAtMost_example :
    AnswersAtMost 1000 (fetch_richest pool (pos 5000) (pos 0) world)
    × (AnswersAtMost 1000 (fetch_all pool (pos 5000) (pos 0) world)
        × (AnswersAtMost 1000 (all_unpaid pool all_of_them world)
            × AnswersAtMost 1000 (fetch_all_no_mined pool all_of_them world)))
listings-AnswersAtMost_example = listings-AnswersAtMost pool (pos 5000) (pos 0) all_of_them world
