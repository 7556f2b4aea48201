-- ===== src/WebSockets/Caught.antt =====
-- Errors that a websocket route turns into a reply, and what each end of the caught action leaves.
use kromer.Prelude.{Option, none, some}
use kromer.Database.{Tables}
use kromer.Database.Keeps.{Safe}
use kromer.Exec.{Outcome, ok, err, panic, World, Exec}
use kromer.Exec.Ensures.{After, Ensures}
use kromer.WebSockets.Routes.{catch, caught}

-- What is left where an error has been caught.
abbrev pub Caught :
    {A : Type 0} → (A → Tables → Type 0) → (Tables → Type 0) → Option A → Tables → Type 0
Caught R Q none = Q
Caught R Q (some a) = R a

module _ {E A : Type 0} (R : A → Tables → Type 0) (Q : Tables → Type 0) where
  caught-Caught :
      (r : Outcome E A) (w : World)
      → After (λ a. Safe (R a)) (Safe Q) (r, w)
      → After (λ o. Safe (Caught R Q o)) (Safe Q) (caught r, w)
  caught-Caught (ok a) w h = h
  caught-Caught (err e) w h = h
  caught-Caught panic w h = h

  pub catch-Caught :
      {P : World → Type 0} (m : Exec E A)
      → Ensures P (λ a. Safe (R a)) (Safe Q) m
      → Ensures P (λ o. Safe (Caught R Q o)) (Safe Q) (catch m)
  unfolding catch
  catch-Caught m hm = record { at = λ w h. let (r, w') = m w in caught-Caught r w' (hm.at w h) }
