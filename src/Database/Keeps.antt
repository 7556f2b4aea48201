-- ===== src/Database/Keeps.antt =====
-- Predicates on the database that a request keeps, one rule for each kind of statement. `Both C W`
-- holds where the committed tables satisfy `C` and those that the request's transaction sees satisfy
-- `W`; `Safe C` says only the first, as is left where a request fails.
use kromer.Prelude.{
  ◌⊎◌, inl, inr, ℕ, ◌≡◌, refl, find, update_where, if◌then◌else◌, Option, none, some, List, [], ◌∷◌,
  Bool, true, false,
}
use kromer.Errors.{SqlxError, row_not_found, database}
use kromer.Database.{Tables, Serials}
use kromer.Database.Statements.{
  Executor, pool, tx, Written, settle, seen, query, update, insert, update_returning, put_rows,
}
use kromer.Exec.{Outcome, ok, err, panic, World, Exec, current, answer, trip, begin, commit}
use kromer.Exec.Ensures.{After, Ensures, Ensures-bind, Ensures-replied, Ensures-weaken}

pub record Both (C W : Tables → Type 0) (w : World) : Type 0 where
  pub outside : C w.committed
  pub inside : W (current w)

pub record Safe (C : Tables → Type 0) (w : World) : Type 0 where
  pub outside : C w.committed

-- A statement that writes, if it succeeds, tables with `W'`.
abbrev pub Writes : {A : Type 0} → (Tables → Type 0) → Written A → Type 0
Writes W' (ok (a, t)) = W' t
Writes W' (err _) = Unit
Writes W' panic = Unit

-- The rows that a successful update leaves satisfy `P`.
abbrev Leaves : {A : Type 0} → (List A → Type 0) → Outcome SqlxError (A × List A) → Type 0
Leaves P (ok (r, rows)) = P rows
Leaves P (err _) = Unit
Leaves P panic = Unit

module _ {A : Type 0} (fits matches : A → Bool) (f : A → A) (rows : List A) where
  update-Leaves :
      (P : List A → Type 0) (fit : Bool) (found : Option A)
      → ((r : A) → found ≡ some r → P (update_where matches f rows))
      → Leaves P (
          if fit
          then (elim found [
            | none ↦ err row_not_found
            | some r ↦ ok (f r, update_where matches f rows)
          ])
          else err database)
  update-Leaves P true none k = tt
  update-Leaves P true (some r) k = k r refl
  update-Leaves P false found k = tt

  put_Leaves :
      (W : Tables → Type 0) (put : List A → Tables) (o : Outcome SqlxError (A × List A))
      → Leaves (λ l. W (put l)) o
      → Writes W (put_rows put o)
  put_Leaves W put (ok (r, l)) h = h
  put_Leaves W put (err e) h = h
  put_Leaves W put panic h = h

  -- An update writes `W` if it does so wherever a row matches.
  pub Writes-update_returning :
      (W : Tables → Type 0) (put : List A → Tables)
      → ((r : A) → find matches rows ≡ some r → W (put (update_where matches f rows)))
      → Writes W (put_rows put (update_returning fits matches f rows))
  unfolding update_returning
  Writes-update_returning W put k =
      put_Leaves W put _ (update-Leaves (λ l. W (put l)) _ (find matches rows) k)

-- An insertion writes `W` if it does so where the row is accepted.
pub Writes-check :
    {A : Type 0} (W : Tables → Type 0) (accepted : Bool) (a : A) (t : Tables)
    → (accepted ≡ true → W t)
    → Writes W (if accepted then ok (a, t) else err database)
Writes-check W true a t k = k refl
Writes-check W false a t k = tt

module _ {C W : Tables → Type 0} where
  pub Both-Safe : (w : World) → Both C W w → Safe C w
  Both-Safe w h = record { outside = h.outside }

  answer-After :
      (faults : List Bool) (w : World)
      → Both C W w
      → After (λ _. Both C W) (Safe C) (answer faults w)
  answer-After [] w h = h
  answer-After (true ∷ rest) w h = record { outside = h.outside }
  answer-After (false ∷ rest) w h = record { outside = h.outside; inside = h.inside }

  pub Keeps-trip : Ensures (Both C W) (λ _. Both C W) (Safe C) trip
  unfolding trip
  Keeps-trip = record { at = λ w h. answer-After w.faults w h }

module _ {C W : Tables → Type 0} where
  -- The transaction sees at first what is committed.
  pub Keeps-begin : Ensures (Both C W) (λ _. Both C C) (Safe C) begin
  unfolding begin
  Keeps-begin =
      Ensures-bind _ _ Keeps-trip
        λ _. record { at = λ w h. record { outside = h.outside; inside = h.outside } }

  -- A commit makes the transaction's tables the committed ones, also where its reply is lost.
  pub Ensures-commit :
      {Q : World → Type 0}
      → ((w : World) → Safe C w → Q w)
      → ((w : World) → Safe W w → Q w)
      → Ensures (Both C W) (λ _. Both W W) Q commit
  unfolding commit
  Ensures-commit before after =
      Ensures-bind _ _ (Ensures-weaken _ (λ _ w h. h) before Keeps-trip) λ _.
        Ensures-replied _ (record { at = λ w h. record { outside = h.inside; inside = h.inside } })
          λ _. Ensures-weaken _ (λ _ w h. h) after Keeps-trip

-- Where the request or the reply of a commit is lost: nothing is committed, or all of it.
abbrev pub Split : (C W : Tables → Type 0) → World → Type 0
Split C W w = Safe C w ⊎ Safe W w

module _ {C W : Tables → Type 0} where
  -- What ends before the commit.
  pub before_commit :
      {E A : Type 0} {P : World → Type 0} {R : A → World → Type 0} {m : Exec E A}
      → Ensures P R (Safe C) m
      → Ensures P R (Split C W) m
  before_commit h = Ensures-weaken _ (λ _ w h. h) (λ w h. inl h) h

  pub commit-Splits : Ensures (Both C W) (λ _. Both W W) (Split C W) commit
  commit-Splits = Ensures-commit (λ w h. inl h) (λ w h. inr h)

  pub Split-scoped : (w : World) → Split C W w → Split C W (record w { working = none })
  Split-scoped w (inl h) = inl (record { outside = h.outside })
  Split-scoped w (inr h) = inr (record { outside = h.outside })

-- Nothing changes if the transaction's tables are as good as those outside.
pub Keeps-commit : {C : Tables → Type 0} → Ensures (Both C C) (λ _. Both C C) (Safe C) commit
Keeps-commit = Ensures-commit (λ w h. h) (λ w h. h)

module _ {A : Type 0} {C W : Tables → Type 0} where
  body-After :
      (w : World) (r : Outcome SqlxError A) → Both C W w → After (λ _. Both C W) (Safe C) (r, w)
  body-After w (ok a) h = h
  body-After w (err e) h = record { outside = h.outside }
  body-After w panic h = record { outside = h.outside }

  pub Keeps-query :
      (ex : Executor) (body : Tables → Outcome SqlxError A)
      → Ensures (Both C W) (λ _. Both C W) (Safe C) (query ex body)
  unfolding query
  Keeps-query ex body =
      Ensures-bind _ _ Keeps-trip λ _. record { at = λ w h. body-After w (body (seen ex w)) h }

module _ {A : Type 0} (C W' : Tables → Type 0) where
  settle-After :
      (w : World) (r : Written A)
      → C w.committed
      → Writes W' r
      → After (λ _. Both C W') (Safe C) (settle tx r w)
  settle-After w (ok (a, t)) c h = record { outside = c; inside = h }
  settle-After w (err e) c h = record { outside = c }
  settle-After w panic c h = record { outside = c }

module _ {A : Type 0} {C W W' : Tables → Type 0} where
  pub Keeps-update :
      (body : ℕ → Tables → Written A)
      → ((now : ℕ) (t : Tables) → W t → Writes W' (body now t))
      → Ensures (Both C W) (λ _. Both C W') (Safe C) (update tx body)
  unfolding update
  Keeps-update body k = Ensures-bind _ _ Keeps-trip λ _.
      Ensures-replied _
        (record {
          at = λ w h.
              settle-After C W' w (body w.now (current w)) h.outside (k w.now (current w) h.inside);
        })
        (λ _. Keeps-trip)

  pub Keeps-insert :
      (draw : Serials → Serials) (body : Serials → ℕ → Tables → Written A)
      → ((s : Serials) (now : ℕ) (t : Tables) → W t → Writes W' (body s now t))
      → Ensures (Both C W) (λ _. Both C W') (Safe C) (insert tx draw body)
  unfolding insert
  Keeps-insert draw body k = Ensures-bind _ _ Keeps-trip λ _.
      Ensures-replied _
        (record {
          at = λ w h.
              settle-After C W' (record w { serials = draw w.serials })
                (body w.serials w.now (current w)) h.outside
                (k w.serials w.now (current w) h.inside);
        })
        (λ _. Keeps-trip)

-- Through the pool a statement commits by itself.
module _ (C : Tables → Type 0) where
  inside_of :
      (o : Option Tables) (w : World) (t : Tables)
      → C t
      → C (elim o [ none ↦ w.committed | some u ↦ u ])
      → C (elim o [ none ↦ t | some u ↦ u ])
  inside_of none w t h k = h
  inside_of (some u) w t h k = k

module _ {A : Type 0} {C : Tables → Type 0} where
  pool-After :
      (w : World) (r : Written A)
      → Both C C w
      → Writes C r
      → After (λ _. Both C C) (Safe C) (settle pool r w)
  pool-After w (ok (a, t)) b h = record {
    outside = h;
    inside = inside_of C w.working w t h b.inside;
  }
  pool-After w (err e) b h = record { outside = b.outside }
  pool-After w panic b h = record { outside = b.outside }

  pub Keeps-update_pool :
      (body : ℕ → Tables → Written A)
      → ((now : ℕ) (t : Tables) → C t → Writes C (body now t))
      → Ensures (Both C C) (λ _. Both C C) (Safe C) (update pool body)
  unfolding update
  Keeps-update_pool body k = Ensures-bind _ _ Keeps-trip λ _.
      Ensures-replied _
        (record {
          at = λ w h. pool-After w (body w.now w.committed) h (k w.now w.committed h.outside);
        })
        (λ _. Keeps-trip)

  pub Keeps-insert_pool :
      (draw : Serials → Serials) (body : Serials → ℕ → Tables → Written A)
      → ((s : Serials) (now : ℕ) (t : Tables) → C t → Writes C (body s now t))
      → Ensures (Both C C) (λ _. Both C C) (Safe C) (insert pool draw body)
  unfolding insert
  Keeps-insert_pool draw body k = Ensures-bind _ _ Keeps-trip λ _.
      Ensures-replied _
        (record {
          at = λ w h.
              pool-After (record w { serials = draw w.serials }) (body w.serials w.now w.committed)
                (record { outside = h.outside; inside = h.inside })
                (k w.serials w.now w.committed h.outside);
        })
        (λ _. Keeps-trip)

-- What a statement gives and writes.
abbrev pub Yields : {A : Type 0} → (A → Tables → Type 0) → Written A → Type 0
Yields J (ok (a, t)) = J a t
Yields J (err _) = Unit
Yields J panic = Unit

module _ {A : Type 0} (C : Tables → Type 0) (J : A → Tables → Type 0) where
  settle-Yields :
      (w : World) (r : Written A)
      → C w.committed
      → Yields J r
      → After (λ a. Both C (J a)) (Safe C) (settle tx r w)
  settle-Yields w (ok (a, t)) c h = record { outside = c; inside = h }
  settle-Yields w (err e) c h = record { outside = c }
  settle-Yields w panic c h = record { outside = c }

module _ {A : Type 0} {C W : Tables → Type 0} where
  pub insert-Yields :
      (J : A → Tables → Type 0) (draw : Serials → Serials) (body : Serials → ℕ → Tables → Written A)
      → ((s : Serials) (now : ℕ) (t : Tables) → W t → Yields J (body s now t))
      → Ensures (Both C W) (λ a. Both C (J a)) (Safe C) (insert tx draw body)
  unfolding insert
  insert-Yields J draw body k = Ensures-bind _ _ Keeps-trip λ _.
      Ensures-replied _
        (record {
          at = λ w h.
              settle-Yields C J (record w { serials = draw w.serials })
                (body w.serials w.now (current w)) h.outside
                (k w.serials w.now (current w) h.inside);
        })
        (λ _. Keeps-trip)

module _ (C : Tables → Type 0) {A : Type 0} (R R' : A → Tables → Type 0) where
  and-After :
      {E : Type 0} (r : Outcome E A × World)
      → After (λ a. Both C (R a)) (Safe C) r
      → After (λ a. Both C (R' a)) (Safe C) r
      → After (λ a. Both C (λ t. R a t × R' a t)) (Safe C) r
  and-After (ok a, w) h k = record { outside = h.outside; inside = (h.inside, k.inside) }
  and-After (err e, w) h k = h
  and-After (panic, w) h k = h

module _ {C W W' : Tables → Type 0} {A : Type 0} {R R' : A → Tables → Type 0} where
  -- Two accounts of one action.
  pub Ensures-and :
      {E : Type 0} (m : Exec E A)
      → Ensures (Both C W) (λ a. Both C (R a)) (Safe C) m
      → Ensures (Both C W') (λ a. Both C (R' a)) (Safe C) m
      → Ensures (Both C (λ t. W t × W' t)) (λ a. Both C (λ t. R a t × R' a t)) (Safe C) m
  Ensures-and m h k = record {
    at = λ w b.
        and-After C R R' (m w) (h.at w (record { outside = b.outside; inside = b.inside.0 }))
          (k.at w (record { outside = b.outside; inside = b.inside.1 }));
  }
