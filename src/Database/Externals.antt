-- ===== src/Database/Externals.antt =====
-- What the program takes from other crates and from generated Unicode tables, as functions that
-- every definition that needs them is given: `sha2` and `hex`, `chrono`, `rust_decimal`.
use kromer.Prelude.{ℕ, ℤ, String, ◌*◌, arith}
use kromer.Crypto.{run_v2_address}
use kromer.Crypto.Address.{IsAddress, run_v2_address-Returns, value}
use kromer.Crypto.Digest.{IsDigest}

-- A `rust_decimal::Decimal` before rounding: `mantissa * 10 ^ (- scale)`.
pub record Decimal : Type 0 where
  pub mantissa : ℤ
  pub scale : ℕ

pub record Externals : Type 0 where
  -- `crypto::sha256`: the digest in lower-case hexadecimal.
  pub sha256 : String → String
  -- How long a chain of digests may avoid a residue, an assumption; see `Crypto.Digest`.
  pub patience : ℕ
  pub is_digest : IsDigest sha256 patience
  -- `str::to_lowercase`
  pub to_lowercase : String → String
  -- `DateTime::to_rfc3339`
  pub to_rfc3339 : ℕ → String
  -- `amount.round_dp(2)`, in hundredths
  pub round_dp2 : Decimal → ℤ

-- `crypto::make_v2_address(key, "k")`, with the fuel that is enough.
unfoldable pub make_v2_address : Externals → String → String
unfolding run_v2_address
make_v2_address x key =
    value (IsAddress x.sha256 key "k") (run_v2_address x.sha256 (9 * x.patience) key "k") (
      run_v2_address-Returns x.sha256 x.patience x.is_digest (9 * x.patience) key "k" (omega arith))
