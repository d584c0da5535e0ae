-- ===== src/Tests/Schedule.antt =====
-- The start of the stream of times of libp2p/schedule/time.go.
use relayer.Base.Int.{pos, negsuc}
use relayer.Base.{
  ◌-◌, ◌^◌, ℕ, ◌+◌, ◌*◌, ◌<◌, ◌≤◌, ok, panic, division_by_zero, ◌≡◌, ◌⊎◌, refl, arith,
}
use relayer.P2p.Schedule.{
  truncate, moved_back, moved, catch_up, first_time, stream_start, stream_start_lem,
}

program : Unit {0}
unfolding truncate moved_back moved catch_up first_time stream_start
program = tt

-- a start that is over, one that is yet to come, and none
overdue : stream_start 100 137 10 ≡ ok (pos 140)
unfolding program
overdue = refl

to_come : stream_start 200 137 10 ≡ ok (pos 200)
unfolding program
to_come = refl

by_clock : stream_start 0 137 10 ≡ ok (pos 140)
unfolding program
by_clock = refl

no_interval : stream_start 100 137 0 ≡ panic division_by_zero
unfolding program
no_interval = refl

-- A start more than 292 years ago moves further back.
long_over : stream_start 5 (2 ^ 63 + 100) 10 ≡ ok (negsuc 9223372036854775784)
unfolding program
long_over = refl

start_fits : 137 - first_time 100 137 10 + 10 < 2 ^ 63
unfolding program
start_fits = omega arith

stream_start_lem_example :
    (t : ℕ) × (stream_start 100 137 10 ≡ ok (pos t))
    × (((137 ≤ first_time 100 137 10) × (t ≡ first_time 100 137 10))
        ⊎ ((times : ℕ) × (t ≡ first_time 100 137 10 + times * 10) × (137 < t) × (t ≤ 137 + 10)))
stream_start_lem_example = stream_start_lem 100 137 10 (omega arith) start_fits
