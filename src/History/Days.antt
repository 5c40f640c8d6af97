-- ===== src/History/Days.antt =====
-- The days of the statistics against the play days of the chat: both open at 06:00 in Seoul.
use tag2now_be.Prelude.{◌*◌, ◌≡◌, ◌≤◌, arith}
use tag2now_be.Time.{Instant, hour, day}
use tag2now_be.Chat.Domain.{day_start}
use tag2now_be.History.Repository.{stat_day, stat_day_start}

-- From the second day of the calendar on, the day that a moment is counted for opens when its play day
-- does, which chat/domain.py works out on its own.
pub stat_day_start-day_start :
    (now : Instant) → day ≤ now → stat_day_start (stat_day now) ≡ day_start (9 * hour) now
unfolding stat_day stat_day_start day_start
stat_day_start-day_start now h = ground arith
