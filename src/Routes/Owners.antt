-- ===== src/Routes/Owners.antt =====
-- `name_transfer` of src/routes/krist/names.rs: whose key it accepts.
use mathlib.Core.Path.{subst}
use kromer.Prelude.{
  ℕ, pos, String, str_eq, eq_iff, ◌≡◌, refl, ap, ◌∙◌, Option, none, some, List, find, Bool, true,
  false, not, arith,
}
use kromer.Errors.Krist.{krist_of_database}
use kromer.Database.{Tables, Serials, Name}
use kromer.Database.Externals.{Externals, make_v2_address}
use kromer.Database.Keeps.{Both, Safe, Both-Safe, Writes, Writes-check, Keeps-trip}
use kromer.Database.Wallets.Verified.{verify_address-LivesAt}
use kromer.Database.Names.Owned.{OwnedBy}
use kromer.Database.Names.{named, fetch_by_name}
use kromer.Database.Statements.{tx, query}
use kromer.Database.Wallets.{insert_wallet, accepts_wallet}
use kromer.Exec.{
  krist_from_sqlx, from_sqlx, Outcome, ok, err, panic, World, Exec, current, throw, pure, ok_or,
  throw_if, begin,
}
use kromer.Exec.Ensures.{
  After, Ensures, Ensures-weaken, Ensures-bind, Ensures-scoped, Ensures-map_err, Ensures-throw_if,
  Keeps-bind, given,
}
use kromer.Models.{NameJson}
use kromer.Routes.Names.{TransferNameRequest, name_transfer_route}
use kromer.Validation.{trim}
use kromer.Database.Stays.{begin-Starts}

-- No demand on the committed tables, and the names that the transaction sees.
abbrev Any : Tables → Type 0
Any t = Unit

abbrev Names : List Name → Tables → Type 0
Names l t = t.names ≡ l

module _ {A : Type 0} {W : Tables → Type 0} where
  query-Yields :
      (body : Tables → A)
      → Ensures
          (Both Any W)
          (λ a w. Both Any W w × (body (current w) ≡ a))
          (Safe Any)
          (query tx (λ t. ok (body t)))
  unfolding query
  query-Yields body = Ensures-bind _ _ Keeps-trip λ _. record { at = λ w h. (h, refl) }

module _ {E A : Type 0} {P Q : World → Type 0} where
  pub ok_or-Yields :
      (o : Option A) (e : E)
      → ((w : World) → P w → Q w)
      → Ensures P (λ a w. P w × (o ≡ some a)) Q (ok_or o e)
  unfolding ok_or throw pure
  ok_or-Yields none e q = record { at = q }
  ok_or-Yields (some a) e q = record { at = λ w p. (p, refl) }

module _ {E : Type 0} {P Q : World → Type 0} where
  pub throw_if-Yields :
      (b : Bool) (e : E)
      → ((w : World) → P w → Q w)
      → Ensures P (λ _ w. P w × (b ≡ false)) Q (throw_if b e)
  unfolding throw_if
  throw_if-Yields true e q = record { at = q }
  throw_if-Yields false e q = record { at = λ w p. (p, refl) }

module _ {E A : Type 0} {F : Type 0} (fact : F) where
  whatever-After : (r : Outcome E A × World) → After (λ _ _. F) (Safe Any) r
  whatever-After (ok a, w) = fact
  whatever-After (err e, w) = record { outside = tt }
  whatever-After (panic, w) = record { outside = tt }

  whatever : {P : World → Type 0} {m : Exec E A} → Ensures P (λ _ _. F) (Safe Any) m
  whatever {m = m} = record { at = λ w p. whatever-After (m w) }

pub same_owner : (a b : String) → not (str_eq a b) ≡ false → a ≡ b
same_owner a b h = (eq_iff a b).0 (ground (arith, h))

module _ (x : Externals) (l : List Name) where
  abbrev Here : World → Type 0
  Here = Both Any (Names l)

  new_wallet-Names :
      (a hash : String) (s : Serials) (now : ℕ) (t : Tables)
      → Names l t
      → Writes (Names l) (insert_wallet a hash (pos 0) s now t)
  unfolding insert_wallet
  new_wallet-Names a hash s now t h =
      Writes-check (Names l) (accepts_wallet s.wallet_id t.wallets a hash (pos 0)) _ _ (λ _. h)

  fetch_by_name-Yields :
      (n : String)
      → Ensures Here (λ o w. Here w × (find (named n) l ≡ o)) (Safe Any) (fetch_by_name tx n)
  unfolding fetch_by_name
  fetch_by_name-Yields n = Ensures-map_err from_sqlx _ (
      Ensures-weaken _ (λ o w h. (h.0, subst (λ rs. find (named n) rs ≡ o) h.0.inside h.1))
        (λ w h. h) (query-Yields (λ t. find (named n) t.names)))

module _ (x : Externals) (t : Tables) where
  begin-Here : Ensures (Safe (λ u. u ≡ t)) (λ _. Here x t.names) (Safe Any) begin
  begin-Here =
      Ensures-weaken begin (λ a w h. record { outside = tt; inside = ap (λ u. u.names) h.inside })
        (λ w h. record { outside = tt }) begin-Starts

  transferred :
      (raw : String) (d : TransferNameRequest)
      → Ensures
          (Safe (λ u. u ≡ t))
          (λ _ _. OwnedBy (x.to_lowercase (trim raw)) (make_v2_address x d.private_key) t.names)
          (Safe Any)
          (name_transfer_route x raw d)
  unfolding name_transfer_route
  transferred raw d =
      let n = x.to_lowercase (trim raw) in
      Ensures-scoped _ (λ a w h. h) (λ w s. record { outside = tt })
        (Keeps-bind _ _ (Ensures-throw_if _ _ (λ w h. record { outside = tt })) λ _.
          Ensures-bind _ _ (Ensures-map_err krist_from_sqlx _ begin-Here) λ _.
            Ensures-bind _ _
              (Ensures-map_err krist_of_database _
                (verify_address-LivesAt x (new_wallet-Names x t.names) d.private_key))
              λ v. given λ at_key. Keeps-bind _ _ (Ensures-throw_if _ _ Both-Safe) λ _.
                Ensures-bind _ _
                  (Ensures-map_err krist_of_database _ (fetch_by_name-Yields x t.names n))
                  λ o. given λ found. Ensures-bind _ _ (ok_or-Yields o _ Both-Safe) λ model.
                    given λ is_model. Ensures-bind _ _ (throw_if-Yields _ _ Both-Safe) λ _.
                      given λ same. whatever (
                        model,
                        (found ∙ is_model, same_owner model.owner v.wallet.address same ∙ at_key),
                      ))

module _ {E A : Type 0} {F : Type 0} where
  if_ok : (r : Outcome E A × World) (a : A) → After (λ _ _. F) (Safe Any) r → r.0 ≡ ok a → F
  if_ok (ok b, w) a f e = f
  if_ok (err b, w) a f e = cc
  if_ok (panic, w) a f e = cc

-- A transfer of a name is answered with success only if the name was registered and its owner was the
-- address of the key that came with the request.
pub name_transfer_route-OwnedBy :
    (x : Externals) (raw : String) (d : TransferNameRequest) (w : World) (j : NameJson)
    → (name_transfer_route x raw d w).0 ≡ ok j
    → OwnedBy (x.to_lowercase (trim raw)) (make_v2_address x d.private_key) w.committed.names
name_transfer_route-OwnedBy x raw d w j e =
    if_ok (name_transfer_route x raw d w) j
      ((transferred x w.committed raw d).at w (record { outside = refl })) e
