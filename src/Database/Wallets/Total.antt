-- ===== src/Database/Wallets/Total.antt =====
-- The sum of all balances, and the uniqueness of addresses, under the writes of `wallets`.
use kromer.Prelude.{
  ℕ, ℤ, pos, ◌+ℤ◌, int_laws, String, str_eq, eq_iff, ◌≡◌, refl, inl, inr, none, some, List, [], ◌∷◌,
  push, find, update_where, true, false, arith, Bool-cases, ap, ◌∙◌,
}
use kromer.Database.{Wallet, Tables, Serials}
use kromer.Database.Wallets.{
  at_address, with_change, write_wallet, insert_wallet, accepts_wallet, fits_wallet,
}
use kromer.Database.Keeps.{Writes, Writes-update_returning, Writes-check}

abbrev pub total : List Wallet → ℤ
total [] = pos 0
total (w ∷ ws) = w.balance +ℤ total ws

-- No two wallets have one address.
abbrev pub UniqueAddresses : List Wallet → Type 0
UniqueAddresses [] = Unit
UniqueAddresses (w ∷ ws) = (find (at_address w.address) ws ≡ none) × UniqueAddresses ws

module _ (f : Wallet → Wallet) (keeps : (w : Wallet) → (f w).address ≡ w.address) (a : String) where
  pub find-update_where-none :
      (b : String) (ws : List Wallet)
      → find (at_address b) ws ≡ none
      → find (at_address b) (update_where (at_address a) f ws) ≡ none
  find-update_where-none b [] h = refl
  find-update_where-none b (w ∷ ws) h = ground (arith, keeps w, find-update_where-none b ws)

  pub update_where-UniqueAddresses :
      (ws : List Wallet) → UniqueAddresses ws → UniqueAddresses (update_where (at_address a) f ws)
  update_where-UniqueAddresses [] u = tt
  update_where-UniqueAddresses (w ∷ ws) u = elim (Bool-cases (str_eq w.address a)) [
    | inl here ↦
        rw (here, keeps w)
          (find-update_where-none w.address ws u.0, update_where-UniqueAddresses ws u.1)
    | inr there ↦
        rw there (find-update_where-none w.address ws u.0, update_where-UniqueAddresses ws u.1)
  ]

  pub update_where_absent :
      (ws : List Wallet) → find (at_address a) ws ≡ none → update_where (at_address a) f ws ≡ ws
  update_where_absent [] h = refl
  update_where_absent (w ∷ ws) h = ground (arith, update_where_absent ws)

-- A relative update moves the sum by its amount, if there is exactly one wallet at the address.
pub total-with_change :
    (a : String) (d : ℤ) (ws : List Wallet) {w : Wallet}
    → UniqueAddresses ws
    → find (at_address a) ws ≡ some w
    → total (update_where (at_address a) (with_change d) ws) ≡ total ws +ℤ d
total-with_change a d [] u h = cc
total-with_change a d (v ∷ ws) u h = elim (Bool-cases (str_eq v.address a)) [
  | inl here ↦
      let same : v.address ≡ a = (eq_iff v.address a).0 here in
      let rest : update_where (at_address a) (with_change d) ws ≡ ws =
        update_where_absent (with_change d) (λ w. refl) a ws (rw same at u.0) in
      rw (here, rest) (omega int_laws)
  | inr there ↦
      let ih : total (update_where (at_address a) (with_change d) ws) ≡ total ws +ℤ d =
        total-with_change a d ws u.1 (rw there at h) in
      rw (there, ih) (omega int_laws)
]

find-push-none :
    (a : String) (ws : List Wallet) (w : Wallet)
    → find (at_address a) ws ≡ none
    → str_eq w.address a ≡ false
    → find (at_address a) (push ws w) ≡ none
find-push-none a [] w h e = rw e
find-push-none a (v ∷ ws) w h e = ground (arith, find-push-none a ws w)

pub push-UniqueAddresses :
    (ws : List Wallet) (w : Wallet)
    → UniqueAddresses ws
    → find (at_address w.address) ws ≡ none
    → UniqueAddresses (push ws w)
push-UniqueAddresses [] w u h = (refl, tt)
push-UniqueAddresses (v ∷ ws) w u h = (
  find-push-none v.address ws w u.0
      (ground (arith, eq_iff v.address w.address, eq_iff w.address v.address)),
  push-UniqueAddresses ws w u.1 (ground arith),
)

pub total-push : (ws : List Wallet) (w : Wallet) → total (push ws w) ≡ total ws +ℤ w.balance
total-push [] w = omega int_laws
total-push (v ∷ ws) w = rw (total-push ws w) (omega int_laws)

add_zero : (a : ℤ) → a +ℤ pos 0 ≡ a
add_zero a = omega int_laws

-- Tables whose balances add up to `b`, one wallet to an address.
pub record Balanced (b : ℤ) (t : Tables) : Type 0 where
  pub unique : UniqueAddresses t.wallets
  pub sums : total t.wallets ≡ b

pub accepted_is_new :
    (id : ℕ) (a : String) (ws : List Wallet) (hash : String) (b : ℤ)
    → accepts_wallet id ws a hash b ≡ true
    → find (at_address a) ws ≡ none
unfolding accepts_wallet
accepted_is_new id a ws hash b e = ground arith

module _ (a : String) (now : ℕ) (t : Tables) where
  pub write_wallet-Balanced :
      (b d : ℤ) → Balanced b t → Writes (Balanced (b +ℤ d)) (write_wallet a (with_change d) now t)
  unfolding write_wallet
  write_wallet-Balanced b d h =
      Writes-update_returning fits_wallet (at_address a) (with_change d) t.wallets
        (Balanced (b +ℤ d)) _
        λ w found. record {
          unique = update_where-UniqueAddresses (with_change d) (λ w. refl) a t.wallets h.unique;
          sums = total-with_change a d t.wallets h.unique found ∙ ap (λ s. s +ℤ d) h.sums;
        }

  pub insert_wallet-Balanced :
      (b : ℤ) (hash : String) (s : Serials)
      → Balanced b t
      → Writes (Balanced b) (insert_wallet a hash (pos 0) s now t)
  unfolding insert_wallet
  insert_wallet-Balanced b hash s h =
      Writes-check (Balanced b) (accepts_wallet s.wallet_id t.wallets a hash (pos 0)) _ _ λ fit.
        record {
          unique =
              push-UniqueAddresses t.wallets _ h.unique
                (accepted_is_new s.wallet_id a t.wallets hash (pos 0) fit);
          sums = total-push t.wallets _ ∙ add_zero (total t.wallets) ∙ h.sums;
        }
