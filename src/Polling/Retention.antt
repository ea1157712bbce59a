-- ===== src/Polling/Retention.antt =====
-- The slot of the weekly retention.
use database_alert_agent.Prelude.{ℕ, ◌+◌, ◌*◌, ◌%◌, ◌≤◌, ◌<◌, ◌≡◌, arith, leb, if◌then◌else◌}
use database_alert_agent.Polling.{
  hour, day, shanghai, weekday, next_weekly_retention_run, remaining_poll_delay,
}

-- The next slot is a Friday at noon in Shanghai, it has not begun, and it is at most a week away.
next_weekly_retention_run_lem :
    (now : ℕ)
    → (weekday (shanghai (next_weekly_retention_run now)) ≡ 4)
      × (shanghai (next_weekly_retention_run now) % day ≡ 12 * hour)
      × (now < next_weekly_retention_run now)
      × (next_weekly_retention_run now ≤ now + 7 * day)
unfolding next_weekly_retention_run
next_weekly_retention_run_lem now = (ground arith, ground arith, ground arith, ground arith)

-- A poll that ends before its interval is over is followed by the next one exactly an interval after
-- its start; a longer poll by the next one at once.
remaining_poll_delay_lem :
    (interval started finished : ℕ)
    → started ≤ finished
    → finished + remaining_poll_delay interval started finished ≡ (
        if leb finished (started + interval * 1000000)
        then started + interval * 1000000
        else finished)
unfolding remaining_poll_delay
remaining_poll_delay_lem interval started finished h = ground arith
