-- ===== src/Time.antt =====
-- Instants and times of day, as the reservation and chat code computes with them. An instant is a
-- number of microseconds (Python's resolution) since 0001-01-01 00:00 UTC, `datetime.min`. The
-- zone "Asia/Seoul" is an argument `seoul`, its offset from UTC; the zone has had one fixed offset
-- since 1988. An aware datetime in that zone is its wall clock, `instant + seoul`.
use tag2now_be.Prelude.{ℕ, ◌+◌, ◌*◌, ◌/◌, ◌%◌}

abbrev pub Instant : Type 0
Instant = ℕ

abbrev pub second : ℕ
second = 1_000_000

abbrev pub minute : ℕ
minute = 60_000_000

abbrev pub hour : ℕ
hour = 3_600_000_000

abbrev pub day : ℕ
day = 86_400_000_000

-- `wall.replace(hour=h, minute=0, second=0, microsecond=0)`, and `datetime.combine(wall.date(), t)`.
abbrev pub at_time_of_day : ℕ → ℕ → ℕ
at_time_of_day wall t = wall / day * day + t

-- The time of day that a wall clock shows.
abbrev pub time_of_day : ℕ → ℕ
time_of_day wall = wall % day
