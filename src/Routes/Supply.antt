-- ===== src/Routes/Supply.antt =====
-- The money supply of src/routes/krist/misc.rs.
use kromer.Prelude.{
  ℤ, ◌+ℤ◌, int_laws, str_eq, ◌≡◌, refl, sym, ◌∙◌, ap, List, [], ◌∷◌, select, not, true, false, Bool,
  Bool-cases, inl, inr,
}
use kromer.Database.{Wallet, Tables}
use kromer.Database.Externals.{Externals}
use kromer.Database.Statements.{query}
use kromer.Database.Wallets.Total.{total, UniqueAddresses}
use kromer.Exec.{krist_from_sqlx, World, trip, answer}
use kromer.Exec.Ensures.{
  After, Answers, Anywhere, answers, Ensures, Ensures-bind, Ensures-map_err, Ensures-weaken,
}
use kromer.Routes.Misc.{supply_of, get_kromer_supply}
use kromer.Routes.Serving.{Request, serve_all, total-serve_all}

-- What the server's own wallet holds.
abbrev pub reserve_of : Tables → ℤ
reserve_of t = total (select (λ (w : Wallet). str_eq w.address "serverwelf") t.wallets)

total-parts :
    (ws : List Wallet)
    → total (select (λ (w : Wallet). not (str_eq w.address "serverwelf")) ws)
        +ℤ total (select (λ (w : Wallet). str_eq w.address "serverwelf") ws)
      ≡ total ws
total-parts [] = omega int_laws
total-parts (w ∷ ws) = elim (Bool-cases (str_eq w.address "serverwelf")) [
  | inl own ↦ rw (own, sym (total-parts ws)) (omega int_laws)
  | inr other ↦ rw (other, sym (total-parts ws)) (omega int_laws)
]

module _ (s : ℤ) where
  abbrev Supplies : World → Type 0
  Supplies w = supply_of w.committed ≡ s

  Supplies-trip : Ensures Supplies (λ _. Supplies) Anywhere trip
  unfolding trip
  Supplies-trip = record { at = λ w h. stays w.faults w h }
    where
      stays :
          (faults : List Bool) (w : World)
          → Supplies w
          → After (λ _. Supplies) Anywhere (answer faults w)
      stays [] w h = h
      stays (true ∷ rest) w h = tt
      stays (false ∷ rest) w h = h

  get_kromer_supply-Ensures : Ensures Supplies (λ v _. v ≡ s) Anywhere get_kromer_supply
  unfolding get_kromer_supply query
  get_kromer_supply-Ensures =
      Ensures-map_err krist_from_sqlx _
        (Ensures-bind _ _ Supplies-trip λ _. record { at = λ w h. h })

-- Whatever client requests came before under `/api/krist`, the money supply that the server
-- reports and what its own wallet holds add up to what they added up to at the start, if no two
-- wallets had one address then.
pub get_kromer_supply-serve_all :
    (x : Externals) (rs : List Request) (w : World)
    → UniqueAddresses w.committed.wallets
    → Answers
        (λ v.
          v +ℤ reserve_of (serve_all x rs w).committed
          ≡ supply_of w.committed +ℤ reserve_of w.committed)
        (get_kromer_supply (serve_all x rs w))
get_kromer_supply-serve_all x rs w u = answers _ (get_kromer_supply (serve_all x rs w)) (
    (Ensures-weaken get_kromer_supply
        (λ v w' e.
          ap (λ s. s +ℤ reserve_of (serve_all x rs w).committed) e
          ∙ total-parts (serve_all x rs w).committed.wallets
          ∙ total-serve_all x rs w u
          ∙ sym (total-parts w.committed.wallets))
        (λ w' h. tt) (get_kromer_supply-Ensures (supply_of (serve_all x rs w).committed))).at
      (serve_all x rs w) refl)
