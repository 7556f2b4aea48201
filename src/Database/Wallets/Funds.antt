-- ===== src/Database/Wallets/Funds.antt =====
-- Balances that are not below zero, under the writes of `wallets`.
use kromer.Prelude.{
  ℤ, pos, ◌+ℤ◌, neg_ℤ, ◌≤ℤ◌, ltb_ℤ, leb_ℤ, int_laws, String, str_eq, eq_iff, ◌≡◌, refl, inl, inr,
  none, some, List, [], ◌∷◌, push, find, update_where, All, false, arith, Bool-cases,
}
use mathlib.Core.Path.{subst}
use kromer.Database.{Wallet}
use kromer.Database.Wallets.{at_address, with_change}
use kromer.Database.Wallets.Total.{UniqueAddresses}

-- No balance is below zero.
abbrev pub Funded : List Wallet → Type 0
Funded = All (λ w. pos 0 ≤ℤ w.balance)

pub push-Funded :
    (ws : List Wallet) (w : Wallet) → Funded ws → pos 0 ≤ℤ w.balance → Funded (push ws w)
push-Funded [] w h k = (k, tt)
push-Funded (v ∷ ws) w h k = (h.0, push-Funded ws w h.1 k)

pub find-push :
    (a : String) (ws : List Wallet) (w : Wallet)
    → find (at_address a) ws ≡ none
    → w.address ≡ a
    → find (at_address a) (push ws w) ≡ some w
find-push a [] w h e = rw ((eq_iff w.address a).1 e) refl
find-push a (v ∷ ws) w h e = ground (arith, find-push a ws w)

module _ (a : String) (d : ℤ) where
  absent-Funded :
      (ws : List Wallet)
      → find (at_address a) ws ≡ none
      → Funded ws
      → Funded (update_where (at_address a) (with_change d) ws)
  absent-Funded [] n h = tt
  absent-Funded (v ∷ ws) n h = elim (Bool-cases (str_eq v.address a)) [
    | inl here ↦ let f : some v ≡ none = rw here at n in cc
    | inr there ↦ rw there (h.0, absent-Funded ws (rw there at n) h.1)
  ]

  -- A change that the one wallet at the address can bear.
  pub borne-Funded :
      (ws : List Wallet) (w : Wallet)
      → UniqueAddresses ws
      → find (at_address a) ws ≡ some w
      → pos 0 ≤ℤ w.balance +ℤ d
      → Funded ws
      → Funded (update_where (at_address a) (with_change d) ws)
  borne-Funded [] w u n k h = tt
  borne-Funded (v ∷ ws) w u n k h = elim (Bool-cases (str_eq v.address a)) [
    | inl here ↦
        let same : v.address ≡ a = (eq_iff v.address a).0 here in
        let is_it : some v ≡ some w = rw here at n in
        let balance : w.balance ≡ v.balance = cc in
        rw here (subst (λ b. pos 0 ≤ℤ b +ℤ d) balance k, absent-Funded ws (rw same at u.0) h.1)
    | inr there ↦ rw there (h.0, borne-Funded ws w u.1 (rw there at n) k h.1)
  ]

  add_up : (b : ℤ) → pos 0 ≤ℤ b → pos 0 ≤ℤ d → pos 0 ≤ℤ b +ℤ d
  add_up b h k = omega (int_laws, h, k)

  -- A change that is no loss.
  pub gained-Funded :
      (ws : List Wallet)
      → pos 0 ≤ℤ d
      → Funded ws
      → Funded (update_where (at_address a) (with_change d) ws)
  gained-Funded [] k h = tt
  gained-Funded (v ∷ ws) k h = elim (Bool-cases (str_eq v.address a)) [
    | inl here ↦ rw here (add_up v.balance h.0 k, gained-Funded ws k h.1)
    | inr there ↦ rw there (h.0, gained-Funded ws k h.1)
  ]

-- A balance that the test lets through bears the debit.
pub enough_lem :
    (balance amount : ℤ) → ltb_ℤ balance amount ≡ false → pos 0 ≤ℤ balance +ℤ neg_ℤ amount
enough_lem balance amount h = omega (int_laws, at_least balance amount h)
  where
    at_least : (b a : ℤ) → ltb_ℤ b a ≡ false → a ≤ℤ b
    at_least b a h = ground (arith, h)

pub positive_lem : (amount : ℤ) → leb_ℤ amount (pos 0) ≡ false → pos 0 ≤ℤ amount
positive_lem amount h = ground (arith, h)

pub bears_nothing : (balance : ℤ) → pos 0 ≤ℤ balance → pos 0 ≤ℤ balance +ℤ neg_ℤ (pos 0)
bears_nothing balance h = omega (int_laws, h)

pub find-Funded :
    (a : String) (ws : List Wallet) (w : Wallet)
    → find (at_address a) ws ≡ some w
    → Funded ws
    → pos 0 ≤ℤ w.balance
find-Funded a (v ∷ ws) w n h = elim (Bool-cases (str_eq v.address a)) [
  | inl here ↦
      let is_it : some v ≡ some w = rw here at n in
      let balance : v.balance ≡ w.balance = cc in subst (λ b. pos 0 ≤ℤ b) balance h.0
  | inr there ↦ find-Funded a ws w (rw there at n) h.1
]
find-Funded a [] w n h = absurd (cc)
