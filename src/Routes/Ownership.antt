-- ===== src/Routes/Ownership.antt =====
-- Any request and the owner of a registered name: only `name_transfer` of src/routes/krist/names.rs
-- changes it, for the owner's key.
use mathlib.Core.Path.{subst, sym}
use kromer.Prelude.{
  String, str_eq, eq_iff, ◌≡◌, refl, ◌∙◌, Option, none, some, List, [], ◌∷◌, find, false,
  Bool-cases, inl, inr,
}
use kromer.Errors.Krist.{krist_of_database}
use kromer.Database.{Tables, Name}
use kromer.Database.Closed.{Keeps, keeps_rules, create_in_transaction-Keeps}
use kromer.Database.Externals.{Externals, make_v2_address}
use kromer.Database.Keeps.{Both, Safe, Both-Safe, Keeps-trip, Keeps-update, Keeps-commit}
use kromer.Database.Names.{named, fetch_by_name, update_ownership_in_transaction, with_owner}
use kromer.Database.Names.Owned.{OwnedBy, Owned, Owned-Moves, apart-Owned}
use kromer.Database.Statements.{tx, query, fits_text}
use kromer.Database.Wallets.Verified.{verify_address-LivesAt}
use kromer.Exec.{krist_from_sqlx, from_sqlx, World, current, ok_or, pure, throw}
use kromer.Exec.Ensures.{
  Ensures, Ensures-bind, Ensures-if, Ensures-map_err, Ensures-throw_if, Keeps-pure, Keeps-bind,
  given,
}
use kromer.Routes.Logins.{login_address-Stays, setup_ws-Stays}
use kromer.Routes.Keeps.{
  Always, begin-Keeps, scoped-Keeps, broadcast_event-Keeps, transaction_create-Keeps,
  name_register-Keeps, name_update_data-Keeps,
}
use kromer.Routes.Names.{TransferNameRequest, hand_over, name_transfer_route}
use kromer.Routes.Owners.{throw_if-Yields, same_owner}
use kromer.Routes.Serving.{
  Request, transfer, register, update, give, log_in, start, message, serve, idle, leaves, idle-Both,
  idle-Safe, idle-Always, idle-Stays,
}
use kromer.Validation.{trim}
use kromer.WebSockets.Keeps.{dispatch-Stays, pay_with-Stays}

name-of-find : (m : String) (rs : List Name) (r : Name) → find (named m) rs ≡ some r → r.name ≡ m
name-of-find m [] r h = absurd (cc)
name-of-find m (q ∷ rs) r h = elim (Bool-cases (str_eq q.name m)) [
  | inl here ↦
      let same : q.name ≡ m = (eq_iff q.name m).0 here in
      let is_it : some q ≡ some r = rw here at h in cc
  | inr there ↦ name-of-find m rs r (rw there at h)
]

module _ (n o : String) where
  abbrev G : Tables → Type 0
  G = Owned n o

  -- What a look-up of a name has found.
  abbrev Row : String → Option Name → Type 0
  Row m none = Unit
  Row m (some q) = (q.name ≡ m) × (m ≡ n → q.owner ≡ o)

  find-Row :
      (m : String) (rs : List Name) (r : Option Name)
      → OwnedBy n o rs
      → find (named m) rs ≡ r
      → Row m r
  find-Row m rs none h e = tt
  find-Row m rs (some q) (v, (found, owned)) e = (
    name-of-find m rs q e,
    λ same.
        let there : find (named n) rs ≡ some q = subst (λ k. find (named k) rs ≡ some q) same e in
        let is_it : some q ≡ some v = cc in cc,
  )

  fetch_by_name-Row :
      (m : String) → Ensures (Both G G) (λ r w. Both G G w × Row m r) (Safe G) (fetch_by_name tx m)
  unfolding fetch_by_name query
  fetch_by_name-Row m = Ensures-map_err from_sqlx _ (
      Ensures-bind _ _ Keeps-trip
        λ _. record { at = λ w h. (h, find-Row m (current w).names _ h.inside.holds refl) })

  ok_or-Row :
      {E : Type 0} (m : String) (r : Option Name) (e : E)
      → Ensures
          (λ w. Both G G w × Row m r)
          (λ q w. Both G G w × Row m (some q))
          (Safe G)
          (ok_or r e)
  unfolding ok_or throw pure
  ok_or-Row m none e = record { at = λ w h. Both-Safe w h.0 }
  ok_or-Row m (some q) e = record { at = λ w h. h }

  update_ownership-Owned :
      (q : Name) (to : String)
      → str_eq q.name n ≡ false
      → Keeps G G (update_ownership_in_transaction q to)
  unfolding update_ownership_in_transaction
  update_ownership-Owned q to apart = Ensures-map_err from_sqlx _ (
      Keeps-update _ λ now t h.
        apart-Owned n o (λ _. fits_text 10 to) q.name (with_owner to) now t (λ r. refl) apart h)

  module _ (x : Externals) where
    hand_over-Owned :
        (q : Name) (to : String) → str_eq q.name n ≡ false → Keeps G G (hand_over x q to)
    unfolding hand_over
    hand_over-Owned q to apart =
        Keeps-bind _ _ (Ensures-map_err krist_of_database _ (update_ownership-Owned q to apart))
          λ updated.
            search
              (
                keeps_rules,
                create_in_transaction-Keeps (Owned-Moves n o) G,
                Keeps-commit,
                broadcast_event-Keeps,
              )
              depth 12

    -- A transfer of the name for its owner's key.
    abbrev pub ByOwner : String → String → Type 0
    ByOwner raw key = (x.to_lowercase (trim raw) ≡ n) × (make_v2_address x key ≡ o)

    other_name :
        (raw key owner : String) (q : Name)
        → ¬ ByOwner raw key
        → Row (x.to_lowercase (trim raw)) (some q)
        → q.owner ≡ owner
        → owner ≡ make_v2_address x key
        → str_eq q.name n ≡ false
    other_name raw key owner q stranger row owns lives = elim (Bool-cases (str_eq q.name n)) [
      | inl here ↦
          let same : x.to_lowercase (trim raw) ≡ n = sym row.0 ∙ (eq_iff q.name n).0 here in
          absurd (stranger (same, sym lives ∙ sym owns ∙ row.1 same))
      | inr there ↦ there
    ]

    give-Owned :
        (raw : String) (d : TransferNameRequest)
        → ¬ ByOwner raw d.private_key
        → Always G (name_transfer_route x raw d)
    unfolding name_transfer_route
    give-Owned raw d stranger = scoped-Keeps _ (
        Keeps-bind _ _ (Ensures-throw_if _ _ Both-Safe) λ _.
          Keeps-bind _ _ (Ensures-map_err krist_from_sqlx _ begin-Keeps) λ _.
            Ensures-bind _ _
              (Ensures-map_err krist_of_database _
                (verify_address-LivesAt x (Owned-Moves n o).rows.wallet_inserted d.private_key))
              λ v. given λ lives. Keeps-bind _ _ (Ensures-throw_if _ _ Both-Safe) λ _.
                Ensures-bind _ _
                  (Ensures-map_err krist_of_database _
                    (fetch_by_name-Row (x.to_lowercase (trim raw))))
                  λ r. Ensures-bind _ _ (ok_or-Row (x.to_lowercase (trim raw)) r _) λ q.
                    given λ row. Ensures-bind _ _ (throw_if-Yields _ _ Both-Safe) λ _. given λ owns.
                      Ensures-if _ _ _ (Keeps-pure _) (
                        hand_over-Owned q d.address (
                          other_name raw d.private_key v.wallet.address q stranger row
                            (same_owner q.owner v.wallet.address owns) lives)))

    -- The request is a transfer of the name for its owner's key.
    abbrev pub HandsOver : Request → Type 0
    HandsOver (give raw d) = ByOwner raw d.private_key
    HandsOver _ = ⊥

    serve-Owned : (r : Request) (w : World) → ¬ HandsOver r → Safe G w → Safe G (serve x r w)
    unfolding serve
    serve-Owned (transfer d) w stranger h =
        idle-Always _ (transaction_create-Keeps (Owned-Moves n o) x d) w h
    serve-Owned (register m key) w stranger h =
        idle-Always _ (name_register-Keeps (Owned-Moves n o) x m key) w h
    serve-Owned (update m body) w stranger h =
        leaves (Both G G) (Both G G) (Safe G) _
          (name_update_data-Keeps (Owned-Moves n o).rows x m body) Both-Safe (idle w)
          (idle-Both w h)
    serve-Owned (give raw d) w stranger h = idle-Always _ (give-Owned raw d stranger) w h
    serve-Owned (log_in key) w stranger h =
        idle-Stays _ (login_address-Stays (Owned-Moves n o).rows x key) w h
    serve-Owned (start env print draws key computer) w stranger h =
        idle-Stays _ (setup_ws-Stays (Owned-Moves n o).rows x env print draws key computer) w h
    serve-Owned (message uuid id m) w stranger h =
        leaves (Safe G) (Safe G) (Safe G) _
          (dispatch-Stays (Owned-Moves n o).rows x (pay_with-Stays (Owned-Moves n o) x) uuid id m)
          (λ w s. s) (idle w) (idle-Safe w h)

-- A name that is registered to an owner is still registered to that owner after any client
-- request, however it ends, unless the request is a transfer of this name with a key whose
-- address is the owner.
pub serve-OwnedBy :
    (x : Externals) (r : Request) (w : World) (n o : String)
    → ¬ HandsOver n o x r
    → OwnedBy n o w.committed.names
    → OwnedBy n o (serve x r w).committed.names
serve-OwnedBy x r w n o stranger h =
    (serve-Owned n o x r w stranger (record { outside = record { holds = h } })).outside.holds
