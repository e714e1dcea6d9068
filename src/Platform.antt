-- ===== src/Platform.antt =====
-- What the program takes from Go's standard library: `time.Time` and `time.Duration`, and the
-- functions whose code is not in the repository, as a record of parameters.
use simple_block_chain.Common.{ℕ, ◌+◌, ◌*◌, ◌^◌, Bool, Option, Bytes, ℤ, pos, ltb, ◌==◌}

-- `time.Time`: the instant in nanoseconds, counted from the earliest that Go can hold (2^63 seconds
-- before the year 1), and the offset of its location from UTC in seconds.
pub record Time : Type 0 where
  pub instant : ℕ
  pub zone : ℤ

abbrev pub second : ℕ
second = 1_000_000_000

abbrev pub minute : ℕ
minute = 60 * second

-- The instant of the zero `time.Time`, the first of January of the year 1.
abbrev pub zero_instant : ℕ
zero_instant = 2 ^ 63 * second

-- `time.Unix(0, 0).UTC()`
abbrev pub unix_epoch : Time
unix_epoch = record { instant = (2 ^ 63 + 62_135_596_800) * second; zone = pos 0 }

-- `t.After(u.Add(d))`
unfoldable pub after_add : Time → Time → ℕ → Bool
after_add t u d = ltb (u.instant + d) t.instant

-- `t.IsZero()`
unfoldable pub is_zero : Time → Bool
is_zero t = t.instant == zero_instant

-- `now.Sub(t) > d`; the saturation of `Sub` at 292 years does not reach the test.
unfoldable pub since_exceeds : Time → Time → ℕ → Bool
since_exceeds now t d = ltb (t.instant + d) now.instant

-- `sha256.Sum256`, and `Format` and `Parse` of `time.Time` with the layouts RFC3339 and RFC3339Nano.
pub record Platform : Type 0 where
  pub sha256 : Bytes → Bytes
  pub format_rfc3339 : Time → Bytes
  pub format_rfc3339_nano : Time → Bytes
  pub parse_rfc3339_nano : Bytes → Option Time
