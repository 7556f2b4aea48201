-- ===== src/Database/Wallets/Richest.antt =====
-- The order of `fetch_richest` of src/database/wallet.rs.
use kromer.Prelude.{
  ℕ, zero, suc, ℤ, pos, pos_part, ltb_ℤ, ◌≤ℤ◌, List, [], ◌∷◌, All, take, drop, Bool, true, false,
  arith, Bool-cases, inl, inr, if◌then◌else◌,
}
use kromer.Errors.{SqlxError, database}
use kromer.Database.{Wallet}
use kromer.Database.Statements.{Executor, query, page, clamp, order_by, place, seen}
use kromer.Database.Wallets.Listing.{richer, fetch_richest}
use kromer.Exec.{from_sqlx, Outcome, ok, err, panic, World, trip}
use kromer.Exec.Ensures.{After, Anywhere, Ensures, Ensures-bind, Ensures-map_err}

abbrev pub AtMost : ℤ → List Wallet → Type 0
AtMost b = All (λ (w : Wallet). w.balance ≤ℤ b)

-- No wallet comes after one with a smaller balance.
abbrev pub Descending : List Wallet → Type 0
Descending [] = Unit
Descending (w ∷ ws) = AtMost w.balance ws × Descending ws

AtMost-mono : (a b : ℤ) (ws : List Wallet) → a ≤ℤ b → AtMost a ws → AtMost b ws
AtMost-mono a b [] h k = tt
AtMost-mono a b (w ∷ ws) h k = (omega (arith, h, k.0), AtMost-mono a b ws h k.1)

place-AtMost :
    (b : ℤ) (x : Wallet) (ws : List Wallet)
    → x.balance ≤ℤ b
    → AtMost b ws
    → AtMost b (place richer x ws)
unfolding place
place-AtMost b x [] h k = (h, tt)
place-AtMost b x (w ∷ ws) h k = elim (Bool-cases (richer x w)) [
  | inl first ↦ rw first (h, k)
  | inr later ↦ rw later (k.0, place-AtMost b x ws h k.1)
]

place-Descending : (x : Wallet) (ws : List Wallet) → Descending ws → Descending (place richer x ws)
unfolding place
place-Descending x [] h = (tt, tt)
place-Descending x (w ∷ ws) h = elim (Bool-cases (richer x w)) [
  | inl first ↦
      let less : w.balance ≤ℤ x.balance = ground (arith, first) in
      rw first ((less, AtMost-mono w.balance x.balance ws less h.0), h)
  | inr later ↦
      let less : x.balance ≤ℤ w.balance = ground (arith, later) in
      rw later (place-AtMost w.balance x ws less h.0, place-Descending x ws h.1)
]

order_by-Descending : (ws : List Wallet) → Descending (order_by richer ws)
unfolding order_by
order_by-Descending [] = tt
order_by-Descending (w ∷ ws) = place-Descending w (order_by richer ws) (order_by-Descending ws)

take-AtMost : (b : ℤ) (n : ℕ) (ws : List Wallet) → AtMost b ws → AtMost b (take n ws)
take-AtMost b zero ws h = tt
take-AtMost b (suc n) [] h = tt
take-AtMost b (suc n) (w ∷ ws) h = (h.0, take-AtMost b n ws h.1)

take-Descending : (n : ℕ) (ws : List Wallet) → Descending ws → Descending (take n ws)
take-Descending zero ws h = tt
take-Descending (suc n) [] h = tt
take-Descending (suc n) (w ∷ ws) h = (take-AtMost w.balance n ws h.0, take-Descending n ws h.1)

drop-Descending : (n : ℕ) (ws : List Wallet) → Descending ws → Descending (drop n ws)
drop-Descending zero ws h = h
drop-Descending (suc n) [] h = tt
drop-Descending (suc n) (w ∷ ws) h = drop-Descending n ws h.1

pub anywhere : {A : Type 0} (r : Outcome SqlxError A × World) → After (λ _. Anywhere) Anywhere r
anywhere (ok a, w) = tt
anywhere (err e, w) = tt
anywhere (panic, w) = tt

page-After :
    (limit offset : ℤ) (ws : List Wallet) (w : World)
    → Descending ws
    → After (λ l _. Descending l) Anywhere (page limit offset ws, w)
unfolding page
page-After limit offset ws w h = refused (ltb_ℤ limit (pos 0)) (ltb_ℤ offset (pos 0))
  where
    refused :
        (a b : Bool)
        → After {E = SqlxError}
            (λ l _. Descending l)
            Anywhere
            (
              (if a
                  then err database
                  else if b
                  then err database
                  else ok (take (pos_part limit) (drop (pos_part offset) ws))),
              w,
            )
    refused true b = tt
    refused false true = tt
    refused false false =
        take-Descending (pos_part limit) _ (drop-Descending (pos_part offset) ws h)

pub fetch_richest-Descending :
    (ex : Executor) (limit offset : ℤ)
    → Ensures Anywhere (λ l _. Descending l) Anywhere (fetch_richest ex limit offset)
unfolding fetch_richest query
fetch_richest-Descending ex limit offset = Ensures-map_err from_sqlx _ (
    Ensures-bind _ _ (record { at = λ w h. anywhere (trip w) })
      λ _. record {
        at = λ w h.
            page-After (clamp limit) offset (order_by richer (seen ex w).wallets) w
              (order_by-Descending (seen ex w).wallets);
      })
