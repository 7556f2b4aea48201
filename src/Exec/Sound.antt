-- ===== src/Exec/Sound.antt =====
-- Actions that do not panic, and what holds of the errors that they end with: one rule for each way
-- to build an action and for each form of statement.
use kromer.Prelude.{
  ℕ, Option, none, some, List, [], ◌∷◌, Bool, true, false, find, update_where, if◌then◌else◌,
}
use kromer.Errors.{SqlxError, row_not_found, database}
use kromer.Database.{Tables, Serials}
use kromer.Database.Statements.{
  Executor, pool, tx, seen, settle, Written, query, update, insert, update_returning, put_rows,
}
use kromer.WebSockets.{WebSocketServer}
use kromer.Exec.{
  Outcome, ok, err, panic, World, Exec, pure, throw, ok_or, throw_if, continue, ◌>>=◌, fail,
  map_outcome, map_err, scoped, answer, trip, replied, begin, commit, gets, modify_server,
}

-- An end that is not a panic, with an error that satisfies `V`.
abbrev pub Fine : {E A : Type 0} → (E → Type 0) → Outcome E A → Type 0
Fine V (ok a) = Unit
Fine V (err e) = V e
Fine V panic = ⊥

-- In no state does the action panic.
pub record Sound {E A : Type 0} (V : E → Type 0) (m : Exec E A) : Type 0 where
  pub at : (w : World) → Fine V (m w).0

-- Any error.
abbrev pub Any : {E : Type 0} → E → Type 0
Any e = Unit

module _ {E A : Type 0} {V : E → Type 0} where
  pub Sound-pure : (a : A) → Sound V (pure {E = E} a)
  unfolding pure
  Sound-pure a = record { at = λ w. tt }

  pub Sound-gets : (f : World → A) → Sound V (gets {E = E} f)
  unfolding gets
  Sound-gets f = record { at = λ w. tt }

  pub Sound-throw : (e : E) → V e → Sound V (throw {A = A} e)
  unfolding throw
  Sound-throw e v = record { at = λ w. v }

  pub Sound-ok_or : (o : Option A) (e : E) → V e → Sound V (ok_or o e)
  unfolding ok_or throw pure
  Sound-ok_or none e v = record { at = λ w. v }
  Sound-ok_or (some a) e v = record { at = λ w. tt }

  pub Sound-if : (b : Bool) (m n : Exec E A) → Sound V m → Sound V n → Sound V (if b then m else n)
  Sound-if true m n hm hn = hm
  Sound-if false m n hm hn = hn

  pub Sound-scoped : (m : Exec E A) → Sound V m → Sound V (scoped m)
  unfolding scoped
  Sound-scoped m hm = record { at = λ w. hm.at w }

module _ {E : Type 0} {V : E → Type 0} where
  pub Sound-throw_if : (b : Bool) (e : E) → V e → Sound V (throw_if b e)
  unfolding throw_if
  Sound-throw_if true e v = record { at = λ w. v }
  Sound-throw_if false e v = record { at = λ w. tt }

  pub Sound-modify_server :
      (f : WebSocketServer → WebSocketServer) → Sound V (modify_server {E = E} f)
  unfolding modify_server
  Sound-modify_server f = record { at = λ w. tt }

module _ {E A B : Type 0} {V : E → Type 0} where
  continue-Fine :
      (r : Outcome E A) (f : A → Exec E B) (w : World)
      → Fine V r
      → ((a : A) → Sound V (f a))
      → Fine V (continue r f w).0
  continue-Fine (ok a) f w h hf = (hf a).at w
  continue-Fine (err e) f w h hf = h
  continue-Fine panic f w h hf = absurd h

  pub Sound-bind :
      (m : Exec E A) (f : A → Exec E B) → Sound V m → ((a : A) → Sound V (f a)) → Sound V (m >>= f)
  unfolding ◌>>=◌
  Sound-bind m f hm hf = record { at = λ w. let (r, w') = m w in continue-Fine r f w' (hm.at w) hf }

-- The conversion has an error to give.
abbrev pub Converts : {F : Type 0} → (F → Type 0) → Option F → Type 0
Converts U none = ⊥
Converts U (some e) = U e

fail-Fine :
    {F : Type 0} (A : Type 0) (U : F → Type 0) (o : Option F)
    → Converts U o
    → Fine U (fail {F = F} {A = A} o)
fail-Fine A U none h = absurd h
fail-Fine A U (some e) h = h

module _ {E F A : Type 0} (V : E → Type 0) (U : F → Type 0) where
  map-Fine :
      (f : E → Option F) (r : Outcome E A)
      → ((e : E) → V e → Converts U (f e))
      → Fine V r
      → Fine U (map_outcome f r)
  map-Fine f (ok a) h k = tt
  map-Fine f (err e) h k = fail-Fine A U (f e) (h e k)
  map-Fine f panic h k = absurd k

module _ {E F A : Type 0} {V : E → Type 0} {U : F → Type 0} where
  pub Sound-map_err :
      (f : E → Option F) (m : Exec E A)
      → ((e : E) → V e → Converts U (f e))
      → Sound V m
      → Sound U (map_err f m)
  unfolding map_err
  Sound-map_err f m h hm = record { at = λ w. let (r, w') = m w in map-Fine V U f r h (hm.at w) }

answer-Fine : (faults : List Bool) (w : World) → Fine Any (answer faults w).0
answer-Fine [] w = tt
answer-Fine (true ∷ rest) w = tt
answer-Fine (false ∷ rest) w = tt

pub Sound-trip : Sound Any trip
unfolding trip
Sound-trip = record { at = λ w. answer-Fine w.faults w }

-- What the server has done, and then its reply.
pub Sound-replied : {A : Type 0} (m : Exec SqlxError A) → Sound Any m → Sound Any (replied m)
unfolding replied ◌>>=◌
Sound-replied m hm = Sound-bind m _ hm λ a. Sound-bind _ _ Sound-trip λ _. Sound-pure a

pub Sound-begin : Sound Any begin
unfolding begin
Sound-begin = Sound-bind _ _ Sound-trip λ _. record { at = λ w. tt }

pub Sound-commit : Sound Any commit
unfolding commit
Sound-commit = Sound-bind _ _ Sound-trip λ _. Sound-replied _ (record { at = λ w. tt })

module _ {A : Type 0} where
  pub Sound-query :
      (ex : Executor) (body : Tables → Outcome SqlxError A)
      → ((t : Tables) → Fine Any (body t))
      → Sound Any (query ex body)
  unfolding query
  Sound-query ex body h = Sound-bind _ _ Sound-trip λ _. record { at = λ w. h (seen ex w) }

  settle-Fine :
      (ex : Executor) (r : Written A) (w : World) → Fine Any r → Fine Any (settle ex r w).0
  settle-Fine pool (ok (a, t)) w h = tt
  settle-Fine tx (ok (a, t)) w h = tt
  settle-Fine _ (err e) w h = h
  settle-Fine _ panic w h = h

  pub Sound-update :
      (ex : Executor) (body : ℕ → Tables → Written A)
      → ((now : ℕ) (t : Tables) → Fine Any (body now t))
      → Sound Any (update ex body)
  unfolding update
  Sound-update ex body h = Sound-bind _ _ Sound-trip λ _.
      Sound-replied _
        (record { at = λ w. settle-Fine ex (body w.now (seen ex w)) w (h w.now (seen ex w)) })

  pub Sound-insert :
      (ex : Executor) (draw : Serials → Serials) (body : Serials → ℕ → Tables → Written A)
      → ((s : Serials) (now : ℕ) (t : Tables) → Fine Any (body s now t))
      → Sound Any (insert ex draw body)
  unfolding insert
  Sound-insert ex draw body h = Sound-bind _ _ Sound-trip λ _. Sound-replied _ (record {
    at = λ w.
        settle-Fine ex (body w.serials w.now (seen ex w)) (record w { serials = draw w.serials })
          (h w.serials w.now (seen ex w));
  })

  -- A row is accepted, or refused by a constraint.
  pub accepted-Fine :
      (b : Bool) (a : A) (t : Tables)
      → Fine {E = SqlxError} {A = A × Tables} Any (if b then ok (a, t) else err database)
  accepted-Fine true a t = tt
  accepted-Fine false a t = tt

  put_rows-Fine :
      (put : List A → Tables) (r : Outcome SqlxError (A × List A))
      → Fine Any r
      → Fine Any (put_rows put r)
  put_rows-Fine put (ok (r, l)) h = tt
  put_rows-Fine put (err e) h = tt
  put_rows-Fine put panic h = h

  found-Fine :
      (f : A → A) (rows : List A) (fit : Bool) (o : Option A)
      → Fine {E = SqlxError} {A = A × List A} Any (
          if fit
          then (elim o [ none ↦ err row_not_found | some r ↦ ok (f r, rows) ])
          else err database)
  found-Fine f rows true none = tt
  found-Fine f rows true (some r) = tt
  found-Fine f rows false o = tt

  pub update_returning-Fine :
      (fits matches : A → Bool) (f : A → A) (put : List A → Tables) (rows : List A)
      → Fine Any (put_rows put (update_returning fits matches f rows))
  unfolding update_returning
  update_returning-Fine fits matches f put rows =
      put_rows-Fine put _ (found-Fine f (update_where matches f rows) _ (find matches rows))

pub ruleset sound_rules = (
  Sound-pure, Sound-throw, Sound-ok_or, Sound-if, Sound-throw_if, Sound-bind, Sound-scoped,
  Sound-gets, Sound-modify_server, Sound-trip, Sound-begin, Sound-commit,
)
