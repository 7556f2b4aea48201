-- ===== src/Validation/Derived.antt =====
-- The addresses that src/utils/crypto.rs derives meet the check of src/utils/validation.rs.
use mathlib.Core.Nat as Unary
use mathlib.Core.List.{Perm, length as size}
use mathlib.Core.List.Perm
use kromer.Prelude.{ℕ, suc, List, length}
use kromer.Database.Externals.{Externals}

native : Unary.ℕ → ℕ
native Unary.zero = 0
native (Unary.suc n) = suc (native n)
