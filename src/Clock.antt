-- ===== src/Clock.antt =====
-- src/kt_common.c: times in nanoseconds. A time is kept within 64 bits by the clock; a difference
-- that overflows is undefined in C and is exact here.
use kuberne_tsn.Common.{ℕ, ◌+◌, ◌-◌, ◌*◌, ◌^◌, ltb, if◌then◌else◌}
use kuberne_tsn.Common.Int.{ℤ, pos, negsuc, ◌-ℤ◌}

-- `NSEC_PER_SEC`
abbrev pub nsec_per_sec : ℕ
nsec_per_sec = 1000000000

-- `kt_get_realtime_ns`, from the time that `clock_gettime` writes
unfoldable pub get_realtime_ns : ℕ → ℕ → ℤ
get_realtime_ns tv_sec tv_nsec = pos (tv_sec * nsec_per_sec + tv_nsec)

-- `kt_get_time_diff_ns`
unfoldable pub get_time_diff_ns : ℤ → ℤ → ℤ
get_time_diff_ns start end_time = end_time -ℤ start

-- an unsigned 64-bit number read as a signed one
unfoldable pub as_i64 : ℕ → ℤ
as_i64 t = if ltb t (2 ^ 63) then pos t else negsuc (2 ^ 64 - t - 1)
