-- ===== src/Oboe/Time.antt =====
-- time.Time and time.Duration as internal/oboe uses them. A time counts the nanoseconds since the
-- zero time.Time; a duration is an int64 of nanoseconds.
use apm_go.Prelude.{ℕ, ◌-◌, ◌^◌, Bool, if◌then◌else◌}
use apm_go.Prelude.Int.{ℤ, pos, negsuc, sub_ℕ, ltb_ℤ, ◌+ℤ◌}

abbrev pub max_duration : ℕ
max_duration = 2 ^ 63 - 1

-- t.Sub(u) stops at the ends of the int64 range.
unfoldable pub sub_time : ℕ → ℕ → ℤ
sub_time t u =
    let d = sub_ℕ t u in
    if ltb_ℤ (pos max_duration) d
    then pos max_duration
    else if ltb_ℤ d (negsuc max_duration)
    then negsuc max_duration
    else d

-- t.Add(ttl).Before(now)
unfoldable pub is_expired : ℕ → ℤ → ℕ → Bool
is_expired t ttl now = ltb_ℤ (pos t +ℤ ttl) (pos now)
