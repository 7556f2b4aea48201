-- ===== src/Exec/Ensures.antt =====
-- What an action leaves, by how it ends: `Ensures P R Q m` says that from a state with `P` the action
-- `m` ends well in a state with `R a`, for its result `a`, or fails in one with `Q`. One rule for
-- each way to build an action.
use kromer.Prelude.{Bool, true, false, Option, none, some, if◌then◌else◌, ◌≡◌, refl}
use kromer.Errors.{SqlxError}
use kromer.Exec.{
  Outcome, ok, err, panic, World, Exec, pure, throw, ok_or, throw_if, continue, ◌>>=◌, map_outcome,
  map_err, fail, scoped, trip, replied,
}

module _ {E A : Type 0} where
  abbrev pub After : (A → World → Type 0) → (World → Type 0) → Outcome E A × World → Type 0
  After R Q (ok a, w) = R a w
  After R Q (err _, w) = Q w
  After R Q (panic, w) = Q w

  pub record Ensures (P : World → Type 0) (R : A → World → Type 0) (Q : World → Type 0)
      (m : Exec E A) : Type 0 where
    pub at : (w : World) → P w → After R Q (m w)

module _ {E A : Type 0} {P Q : World → Type 0} where
  pub Ensures-pure :
      (R : A → World → Type 0) (a : A)
      → ((w : World) → P w → R a w)
      → Ensures P R Q (pure {E = E} a)
  unfolding pure
  Ensures-pure R a h = record { at = h }

  pub Keeps-pure : (a : A) → Ensures P (λ _. P) Q (pure {E = E} a)
  unfolding pure
  Keeps-pure a = record { at = λ w p. p }

  pub Ensures-throw :
      {R : A → World → Type 0} (e : E) → ((w : World) → P w → Q w) → Ensures P R Q (throw {A = A} e)
  unfolding throw
  Ensures-throw e h = record { at = h }

  pub Ensures-ok_or :
      (o : Option A) (e : E) → ((w : World) → P w → Q w) → Ensures P (λ _. P) Q (ok_or o e)
  unfolding ok_or throw pure
  Ensures-ok_or none e h = record { at = h }
  Ensures-ok_or (some a) e h = record { at = λ w p. p }

  pub Ensures-if :
      {R : A → World → Type 0} (b : Bool) (m n : Exec E A)
      → Ensures P R Q m
      → Ensures P R Q n
      → Ensures P R Q (if b then m else n)
  Ensures-if true m n hm hn = hm
  Ensures-if false m n hm hn = hn

module _ {E A : Type 0} {P Q : World → Type 0} {R : A → World → Type 0} where
  -- Each branch may use what the test says.
  pub Ensures-branch :
      (b : Bool) (m n : Exec E A)
      → (b ≡ true → Ensures P R Q m)
      → (b ≡ false → Ensures P R Q n)
      → Ensures P R Q (if b then m else n)
  Ensures-branch true m n hm hn = hm refl
  Ensures-branch false m n hm hn = hn refl

module _ {E : Type 0} {P Q : World → Type 0} where
  pub Ensures-throw_if :
      (b : Bool) (e : E) → ((w : World) → P w → Q w) → Ensures P (λ _. P) Q (throw_if b e)
  unfolding throw_if
  Ensures-throw_if true e h = record { at = h }
  Ensures-throw_if false e h = record { at = λ w p. p }

module _ {E A B : Type 0} {Q : World → Type 0} {R : A → World → Type 0}
    {S : B → World → Type 0} where
  bind-After :
      (r : Outcome E A) (w : World) (f : A → Exec E B)
      → After R Q (r, w)
      → ((a : A) → Ensures (R a) S Q (f a))
      → After S Q (continue r f w)
  bind-After (ok a) w f h hf = (hf a).at w h
  bind-After (err e) w f h hf = h
  bind-After panic w f h hf = h

  pub Ensures-bind :
      {P : World → Type 0} (m : Exec E A) (f : A → Exec E B)
      → Ensures P R Q m
      → ((a : A) → Ensures (R a) S Q (f a))
      → Ensures P S Q (m >>= f)
  unfolding ◌>>=◌
  Ensures-bind m f hm hf = record {
    at = λ w p. let (r, w') = m w in bind-After r w' f (hm.at w p) hf;
  }

-- A step that keeps `P`.
pub Keeps-bind :
    {E A B : Type 0} {P Q : World → Type 0} {S : B → World → Type 0} (m : Exec E A)
    (f : A → Exec E B)
    → Ensures P (λ _. P) Q m
    → ((a : A) → Ensures P S Q (f a))
    → Ensures P S Q (m >>= f)
Keeps-bind m f hm hf = Ensures-bind m f hm hf

module _ {A : Type 0} {P Q : World → Type 0} {R : A → World → Type 0} where
  -- What the server has done, and then its reply.
  pub Ensures-replied :
      (m : Exec SqlxError A)
      → Ensures P R Q m
      → ((a : A) → Ensures (R a) (λ _. R a) Q trip)
      → Ensures P R Q (replied m)
  unfolding replied ◌>>=◌
  Ensures-replied m hm ht =
      Ensures-bind m _ hm λ a. Ensures-bind _ _ (ht a) λ _. Ensures-pure R a (λ w h. h)

module _ {E A F : Type 0} (S Q : World → Type 0) where
  fact-After : (r : Outcome E A × World) → F → After (λ _. S) Q r → After (λ _ w. S w × F) Q r
  fact-After (ok a, w) f h = (h, f)
  fact-After (err e, w) f h = h
  fact-After (panic, w) f h = h

module _ {E A F : Type 0} {S Q : World → Type 0} where
  -- A fact that the state does not matter to is still there afterwards.
  pub with_fact :
      {m : Exec E A} → Ensures S (λ _. S) Q m → Ensures (λ w. S w × F) (λ _ w. S w × F) Q m
  with_fact {m} h = record { at = λ w p. fact-After S Q (m w) p.1 (h.at w p.0) }

module _ {A : Type 0} (R : A → World → Type 0) (Q : World → Type 0) (w : World) where
  fail-After : {F : Type 0} (o : Option F) → Q w → After R Q (fail o, w)
  fail-After none h = h
  fail-After (some e) h = h

  map-After :
      {E F : Type 0} (f : E → Option F) (r : Outcome E A)
      → After R Q (r, w)
      → After R Q (map_outcome f r, w)
  map-After f (ok a) h = h
  map-After f (err e) h = fail-After (f e) h
  map-After f panic h = h

module _ {E F A : Type 0} {Q : World → Type 0} {R : A → World → Type 0} where
  pub Ensures-map_err :
      {P : World → Type 0} (f : E → Option F) (m : Exec E A)
      → Ensures P R Q m
      → Ensures P R Q (map_err f m)
  unfolding map_err
  Ensures-map_err f m hm = record {
    at = λ w p. let (r, w') = m w in map-After R Q w' f r (hm.at w p);
  }

module _ {A : Type 0} (R R' : A → World → Type 0) (Q Q' : World → Type 0) where
  scoped-After :
      {E : Type 0}
      → ((a : A) (w : World) → R a w → R' a (record w { working = none }))
      → ((w : World) → Q w → Q' (record w { working = none }))
      → (r : Outcome E A) (w : World) → After R Q (r, w)
      → After R' Q' (r, record w { working = none })
  scoped-After hr hq (ok a) w h = hr a w h
  scoped-After hr hq (err e) w h = hq w h
  scoped-After hr hq panic w h = hq w h

module _ {E A : Type 0} {Q Q' : World → Type 0} {R R' : A → World → Type 0} where
  -- A function that began a transaction forgets what it has not committed, however it ends.
  pub Ensures-scoped :
      {P : World → Type 0} (m : Exec E A)
      → ((a : A) (w : World) → R a w → R' a (record w { working = none }))
      → ((w : World) → Q w → Q' (record w { working = none }))
      → Ensures P R Q m
      → Ensures P R' Q' (scoped m)
  unfolding scoped
  Ensures-scoped m hr hq hm = record {
    at = λ w p. let (r, w') = m w in scoped-After R R' Q Q' hr hq r w' (hm.at w p);
  }

module _ {E A : Type 0} (R R' : A → World → Type 0) (Q Q' : World → Type 0) where
  weaken-After :
      ((a : A) (w : World) → R a w → R' a w)
      → ((w : World) → Q w → Q' w)
      → (r : Outcome E A × World) → After R Q r
      → After R' Q' r
  weaken-After hr hq (ok a, w) h = hr a w h
  weaken-After hr hq (err e, w) h = hq w h
  weaken-After hr hq (panic, w) h = hq w h

module _ {E A : Type 0} {Q Q' : World → Type 0} {R R' : A → World → Type 0} where
  pub Ensures-weaken :
      {P : World → Type 0} (m : Exec E A)
      → ((a : A) (w : World) → R a w → R' a w)
      → ((w : World) → Q w → Q' w)
      → Ensures P R Q m
      → Ensures P R' Q' m
  Ensures-weaken m hr hq hm = record { at = λ w p. weaken-After R R' Q Q' hr hq (m w) (hm.at w p) }

module _ {E A : Type 0} {P' P Q : World → Type 0} {R : A → World → Type 0} where
  -- A start with more.
  pub Ensures-after :
      (m : Exec E A) → ((w : World) → P' w → P w) → Ensures P R Q m → Ensures P' R Q m
  Ensures-after m hp hm = record { at = λ w p. hm.at w (hp w p) }

module _ {E A : Type 0} {P Q : World → Type 0} {R : A → World → Type 0} {m : Exec E A}
    {F : Type 0} where
  -- A fact that the state does not matter to.
  pub given : (F → Ensures P R Q m) → Ensures (λ w. P w × F) R Q m
  given h = record { at = λ w p. (h p.1).at w p.0 }

abbrev pub Anywhere : World → Type 0
Anywhere w = Unit

-- An answer satisfies `P`; an error or a panic gives none.
abbrev pub Answers : {E A : Type 0} → (A → Type 0) → Outcome E A × World → Type 0
Answers P (ok a, w) = P a
Answers P (err _, w) = Unit
Answers P (panic, w) = Unit

pub answers :
    {E A : Type 0} (P : A → Type 0) (r : Outcome E A × World)
    → After (λ a _. P a) Anywhere r
    → Answers P r
answers P (ok a, w) h = h
answers P (err e, w) h = tt
answers P (panic, w) h = tt

module _ {E A : Type 0} (Q : World → Type 0) where
  -- What holds at every end.
  pub ended : (r : Outcome E A × World) → After (λ _. Q) Q r → Q r.1
  ended (ok a, w) h = h
  ended (err e, w) h = h
  ended (panic, w) h = h
