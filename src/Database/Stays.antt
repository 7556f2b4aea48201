-- ===== src/Database/Stays.antt =====
-- The committed tables under statements that go through the pool, where each commits by itself, and
-- at the begin of a transaction.
use kromer.Prelude.{ℕ, List, [], ◌∷◌, Bool, true, false}
use kromer.Errors.{SqlxError}
use kromer.Database.{Tables, Serials}
use kromer.Database.Statements.{pool, settle, Written, query, insert}
use kromer.Database.Keeps.{Both, Safe, Writes}
use kromer.Exec.{Outcome, ok, err, panic, World, Exec, answer, trip, begin}
use kromer.Exec.Ensures.{After, Ensures, Ensures-replied, Ensures-bind}

-- The committed tables satisfy `C` before and, however the action ends, after.
abbrev pub Stays : {E A : Type 0} → (Tables → Type 0) → Exec E A → Type 0
Stays C = Ensures (Safe C) (λ _. Safe C) (Safe C)

module _ {C : Tables → Type 0} where
  pub same_state : (w : World) → Safe C w → Safe C w
  same_state w h = h

  answer-After :
      (faults : List Bool) (w : World) → Safe C w → After (λ _. Safe C) (Safe C) (answer faults w)
  answer-After [] w h = h
  answer-After (true ∷ rest) w h = record { outside = h.outside }
  answer-After (false ∷ rest) w h = record { outside = h.outside }

  pub Stays-trip : Stays C trip
  unfolding trip
  Stays-trip = record { at = λ w h. answer-After w.faults w h }

module _ {A : Type 0} {C : Tables → Type 0} where
  read-After :
      (r : Outcome SqlxError A) (w : World) → Safe C w → After (λ _. Safe C) (Safe C) (r, w)
  read-After (ok a) w h = h
  read-After (err e) w h = h
  read-After panic w h = h

  pub Stays-query : (body : Tables → Outcome SqlxError A) → Stays C (query pool body)
  unfolding query
  Stays-query body =
      Ensures-bind _ _ Stays-trip λ _. record { at = λ w h. read-After (body w.committed) w h }

  write-After :
      (w : World) (r : Written A)
      → Safe C w
      → Writes C r
      → After (λ _. Safe C) (Safe C) (settle pool r w)
  write-After w (ok (a, t)) b h = record { outside = h }
  write-After w (err e) b h = b
  write-After w panic b h = b

  pub Stays-insert :
      (draw : Serials → Serials) (body : Serials → ℕ → Tables → Written A)
      → ((s : Serials) (now : ℕ) (t : Tables) → C t → Writes C (body s now t))
      → Stays C (insert pool draw body)
  unfolding insert
  Stays-insert draw body k = Ensures-bind _ _ Stays-trip λ _.
      Ensures-replied _
        (record {
          at = λ w h.
              write-After (record w { serials = draw w.serials }) (body w.serials w.now w.committed)
                (record { outside = h.outside }) (k w.serials w.now w.committed h.outside);
        })
        (λ _. Stays-trip)

-- A transaction sees at first what is committed.
pub begin-Starts : {C : Tables → Type 0} → Ensures (Safe C) (λ _. Both C C) (Safe C) begin
unfolding begin
begin-Starts =
    Ensures-bind _ _ Stays-trip
      λ _. record { at = λ w h. record { outside = h.outside; inside = h.outside } }
