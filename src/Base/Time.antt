-- ===== src/Base/Time.antt =====
-- time.Time of Go: an instant, in nanoseconds since the zero time (January 1 of year 1, UTC), and
-- the zone in which its clock is read. Instants before the zero time are not representable.
use Prim.Native.Nat.{min, ℕ, ◌+◌, ◌-◌, ◌*◌, ◌/◌, ◌%◌}
use mathlib.Core.Bool.{Bool}
use dashfetchr.Base.Tests.{ltb, ◌==◌}
use dashfetchr.Base.Int64.{ℤ, pos, sub_ℕ, pos_part, neg_part}

pub record Time : Type 0 where
  pub nanos : ℕ
  pub zone : ℤ  -- seconds east of UTC

-- t.UTC()
abbrev pub utc : Time → Time
utc t = record t { zone = pos 0 }

-- t.Before(u)
abbrev pub before : Time → Time → Bool
before t u = ltb t.nanos u.nanos

-- t.IsZero()
abbrev pub is_zero : Time → Bool
is_zero t = t.nanos == 0

-- January 1, 1970, in milliseconds since the zero time.
abbrev pub unix_epoch_ms : ℕ
unix_epoch_ms = 719162 * 86400000

-- t.UnixMilli()
unfoldable pub unix_milli : Time → ℤ
unix_milli t = sub_ℕ (t.nanos / 1000000) unix_epoch_ms

-- t.Hour(), on the clock of the time's own zone. The clock's seconds are moved by a whole day, so
-- that a zone west of UTC does not take them below zero.
unfoldable pub hour : Time → ℕ
hour t = (t.nanos / 1000000000 + pos_part t.zone + 86400 - neg_part t.zone) % 86400 / 3600

-- The days before the date that the time's own clock shows.
abbrev days : Time → ℕ
days t = (t.nanos / 1000000000 + pos_part t.zone - neg_part t.zone) / 86400

-- t.Year(), by the Gregorian cycles of 400, 100, 4 and 1 years.
unfoldable pub year : Time → ℕ
year t =
    let n400 = days t / 146097 in
    let r400 = days t % 146097 in
    let n100 = min 3 (r400 / 36524) in
    let r100 = r400 - n100 * 36524 in
    let n4 = r100 / 1461 in
    let n1 = min 3 (r100 % 1461 / 365) in 400 * n400 + 100 * n100 + 4 * n4 + n1 + 1
