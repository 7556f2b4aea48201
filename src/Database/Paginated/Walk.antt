-- ===== src/Database/Paginated/Walk.antt =====
-- Following `next_offset` of src/database/paginated.rs from page to page.
use kromer.Prelude.{
  ℕ, zero, suc, ◌+◌, ◌-◌, ◌≤◌, ◌<◌, ◌^◌, ℤ, pos, pos_part, ◌+ℤ◌, int_laws, leb, ◌≡◌, refl, sym, ap,
  ◌∙◌, none, some, List, [], ◌∷◌, ◌++◌, length, take, drop, length-drop, length-take-le_length,
  arith, ltb, Bool-cases, inl, inr, if◌then◌else◌, neg_ℤ,
}
use kromer.Database.Paginated.{PaginatedResult, new, has_more, next_offset, wrap}

wrap-small : (n : ℕ) → n < 2 ^ 63 → wrap (pos n) ≡ pos n
unfolding wrap neg_ℤ
wrap-small n h = ground (arith, h)

pos_add : (a b : ℕ) → pos a +ℤ pos b ≡ pos (a + b)
pos_add a b = omega int_laws

module _ {A : Type 0} where
  drop_all : (n : ℕ) (xs : List A) → length xs ≤ n → drop n xs ≡ []
  drop_all zero [] h = refl
  drop_all zero (x ∷ xs) h = absurd (omega (arith, h))
  drop_all (suc n) [] h = refl
  drop_all (suc n) (x ∷ xs) h = drop_all n xs (omega (arith, h))

  take_all : (n : ℕ) (xs : List A) → length xs ≤ n → take n xs ≡ xs
  take_all zero [] h = refl
  take_all zero (x ∷ xs) h = absurd (omega (arith, h))
  take_all (suc n) [] h = refl
  take_all (suc n) (x ∷ xs) h = ap (λ r. x ∷ r) (take_all n xs (omega (arith, h)))

  length-take :
      (n : ℕ) (xs : List A) → length (take n xs) ≡ (if leb n (length xs) then n else length xs)
  length-take zero xs = ground arith
  length-take (suc n) [] = ground arith
  length-take (suc n) (x ∷ xs) = ground (arith, length-take n xs)

  length-full : (n : ℕ) (xs : List A) → n ≤ length xs → length (take n xs) ≡ n
  length-full n xs h = ground (arith, h, length-take n xs)

  take-drop : (m : ℕ) (xs : List A) → take m xs ++ drop m xs ≡ xs
  take-drop zero xs = refl
  take-drop (suc m) [] = refl
  take-drop (suc m) (x ∷ xs) = ap (λ r. x ∷ r) (take-drop m xs)

  drop_nil : (m : ℕ) → drop {A = A} m [] ≡ []
  drop_nil zero = refl
  drop_nil (suc m) = refl

  drop-drop : (n m k : ℕ) (xs : List A) → k ≡ n + m → drop k xs ≡ drop m (drop n xs)
  drop-drop zero m k xs e = let same : k ≡ m = omega (arith, e) in ap (λ i. drop i xs) same
  drop-drop (suc n) m k [] e = drop_nil k ∙ sym (drop_nil m)
  drop-drop (suc n) m zero (x ∷ xs) e = absurd (omega (arith, e))
  drop-drop (suc n) m (suc k) (x ∷ xs) e = drop-drop n m k xs (omega (arith, e))

  append_nil : (xs : List A) → xs ++ [] ≡ xs
  append_nil [] = refl
  append_nil (x ∷ xs) = ap (λ r. x ∷ r) (append_nil xs)

module _ {A : Type 0} (rows : List A) (limit : ℕ) where
  -- The page at an offset, of all rows.
  abbrev pub page_at : ℕ → PaginatedResult A
  page_at n = new (take limit (drop n rows)) (pos (length rows))

  -- The rows of the pages from an offset on, for as long as there is a next offset.
  unfoldable pub walk : ℕ → ℤ → List A
  unfolding next_offset new
  walk zero offset = []
  walk (suc fuel) offset =
      let page = page_at (pos_part offset) in
      page.rows ++ elim (next_offset page offset) [ none ↦ [] | some next ↦ walk fuel next ]

  module _ (few : length rows < 2 ^ 63) (some_rows : 1 ≤ limit) where
    abbrev left : ℕ → List A
    left n = drop n rows

    next_offset-page_at :
        (n : ℕ)
        → n ≤ length rows
        → next_offset (page_at n) (pos n) ≡ (
            if ltb (n + length (take limit (left n))) (length rows)
            then some (pos (n + length (take limit (left n))))
            else none)
    unfolding next_offset has_more new
    next_offset-page_at n h =
        let size = length-drop n rows in
        let taken = length-take-le_length limit (left n) in
        let small : n + length (take limit (left n)) < 2 ^ 63 =
          omega (arith, few, h, size, taken) in
        rw
          (
            pos_add n (length (take limit (left n))),
            wrap-small (n + length (take limit (left n))) small,
          )
          (ground arith)

    -- All that is left is on this page, or the page is full.
    walk-drop : (fuel n : ℕ) → n ≤ length rows → length rows - n ≤ fuel → walk fuel (pos n) ≡ left n
    unfolding walk
    walk-drop zero n h enough = sym (drop_all n rows (omega (arith, h, enough)))
    walk-drop (suc fuel) n h enough =
        let size = length-drop n rows in
        let taken = length-take-le_length limit (left n) in
        let k = length (take limit (left n)) in
        rw (next_offset-page_at n h) (elim (Bool-cases (ltb (n + k) (length rows))) [
          | inl more ↦
              let full : limit ≤ length (left n) =
                ground (arith, size, more, length-take limit (left n)) in
              let same = length-full limit (left n) full in
              rw (more) (
                ap (λ r. take limit (left n) ++ r)
                  (walk-drop fuel (n + k) (ground (arith, more))
                      (omega (arith, enough, same, some_rows))
                    ∙ drop-drop n limit (n + k) rows (ap (λ i. n + i) same))
                ∙ take-drop limit (left n))
          | inr last ↦ rw (last) (
              append_nil (take limit (left n))
              ∙ take_all limit (left n) (ground (arith, size, last, length-take limit (left n))))
        ])

    -- Following the next offset from the first page on, with fuel for each row, gives every row once and in
    -- order, if a page has room for a row and there are fewer than 2^63 rows.
    pub walk-all : (fuel : ℕ) → length rows ≤ fuel → walk fuel (pos 0) ≡ rows
    walk-all fuel h = walk-drop fuel 0 (omega arith) (omega (arith, h))
