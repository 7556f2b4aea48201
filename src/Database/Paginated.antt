-- ===== src/Database/Paginated.antt =====
-- The pages of src/database/paginated.rs, a file that no module declares yet. `i64` arithmetic wraps around where it overflows, as in a
-- release build; `count` and `total` are within range, and so is the length of a list of rows.
pub mod Walk
use kromer.Prelude.{
  ℕ, zero, suc, ◌+◌, ◌-◌, ◌/◌, ◌^◌, ℤ, pos, negsuc, pos_part, neg_part, ◌+ℤ◌, ◌-ℤ◌, neg_ℤ, ltb_ℤ,
  leb_ℤ, Option, none, some, List, [], ◌∷◌, map, length, select, Bool, true, false, not, ◌&&◌, ◌||◌,
  ltb, ◌==◌, if◌then◌else◌,
}

-- What an operation on `i64` keeps of a result that is out of range by less than `2 ^ 64`.
unfoldable pub wrap : ℤ → ℤ
wrap a =
    if leb_ℤ (pos (2 ^ 63)) a
    then a -ℤ pos (2 ^ 64)
    else if ltb_ℤ a (neg_ℤ (pos (2 ^ 63)))
    then a +ℤ pos (2 ^ 64)
    else a

-- Whether the signs differ.
abbrev signs_differ : ℤ → ℤ → Bool
signs_differ (pos _) (pos _) = false
signs_differ (negsuc _) (negsuc _) = false
signs_differ _ _ = true

-- `a / b`; `none` is the panic at zero, and at the least number divided by -1.
unfoldable pub quotient : ℤ → ℤ → Option ℤ
quotient a b =
    let q = (pos_part a + neg_part a) / (pos_part b + neg_part b) in
    if (pos_part b + neg_part b == 0) || ((neg_part a == 2 ^ 63) && (neg_part b == 1))
    then none
    else if signs_differ a b
    then some (neg_ℤ (pos q))
    else some (pos q)

-- `i64::max(0)`
abbrev max_zero : ℤ → ℤ
max_zero a = if ltb_ℤ a (pos 0) then pos 0 else a

pub record PaginationInfo : Type 0 where
  pub current_page : ℤ
  pub total_pages : ℤ
  pub has_next : Bool
  pub has_prev : Bool
  pub offset : ℤ
  pub limit : ℤ

pub record PaginatedResult (A : Type 0) : Type 0 where
  pub count : ℤ
  pub total : ℤ
  pub rows : List A

module _ {A : Type 0} where
  -- `PaginatedResult::new`
  unfoldable pub new : List A → ℤ → PaginatedResult A
  new rows total = record { count = pos (length rows); total = total; rows = rows }

  unfoldable pub empty : PaginatedResult A
  empty = record { count = pos 0; total = pos 0; rows = [] }

  unfoldable pub has_more : PaginatedResult A → ℤ → Bool
  unfolding wrap
  has_more self offset = ltb_ℤ (wrap (offset +ℤ self.count)) self.total

  unfoldable pub next_offset : PaginatedResult A → ℤ → Option ℤ
  unfolding has_more wrap
  next_offset self current_offset =
      if has_more self current_offset then some (wrap (current_offset +ℤ self.count)) else none

  unfoldable pub prev_offset : PaginatedResult A → ℤ → ℤ → Option ℤ
  unfolding wrap
  prev_offset self current_offset limit =
      if ltb_ℤ (pos 0) current_offset
      then some (max_zero (wrap (current_offset -ℤ limit)))
      else none

  unfoldable pub filter : (A → Bool) → PaginatedResult A → PaginatedResult A
  filter f self =
      let filtered_rows = select f self.rows in
      record { count = pos (length filtered_rows); total = self.total; rows = filtered_rows }

  -- `ceil_ratio a b` is the ceiling of the quotient of the two numbers as `f64`, back as `i64`.
  unfoldable pub pagination_info : (ℤ → ℤ → ℤ) → PaginatedResult A → ℤ → ℤ → Option PaginationInfo
  unfolding quotient has_more
  pagination_info ceil_ratio self offset limit = elim (quotient offset limit) [
    | none ↦ none
    | some q ↦ some (record {
      current_page = wrap (q +ℤ pos 1);
      total_pages = ceil_ratio self.total limit;
      has_next = has_more self offset;
      has_prev = ltb_ℤ (pos 0) offset;
      offset = offset;
      limit = limit;
    })
  ]

-- `PaginatedResult::map`
unfoldable pub map_rows : {A B : Type 0} → (A → B) → PaginatedResult A → PaginatedResult B
map_rows f self = record { count = self.count; total = self.total; rows = map f self.rows }
