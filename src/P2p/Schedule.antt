-- ===== src/P2p/Schedule.antt =====
-- libp2p/schedule/time.go: when the stream of times starts. A time is a number of nanoseconds from
-- Go's zero time on, and a duration an int64; an interval is not negative.
use native.Mathlib.Nat.{div-add-mod', mod-lt}
use relayer.Base.Int.{ℤ, pos, negsuc}
use relayer.Base.{
  ◌^◌, ◌&&◌, if_cases, ℕ, ◌+◌, ◌-◌, ◌*◌, ◌/◌, ◌%◌, ◌<◌, ◌≤◌, ltb, ◌==◌, Outcome, ok, panic,
  division_by_zero, if◌then◌else◌, ◌≡◌, ◌⊎◌, inl, inr, refl, arith,
}

-- `Truncate`
unfoldable pub truncate : ℕ → ℕ → ℕ
truncate now interval = if interval == 0 then now else now - now % interval

unfoldable pub moved_back : ℕ → ℕ → ℤ
moved_back start by = if ltb start by then negsuc (by - start - 1) else pos (start - by)

-- the start moved by `times * interval`, where `total` is -n as an int64: it turns positive where n is
-- more than 2^63, and -2^63 is its own negative
unfoldable pub moved : ℕ → ℕ → ℕ → ℤ
moved start n interval =
    if ltb (2 ^ 63) n
    then moved_back start ((2 ^ 64 - n) / interval * interval)
    else if n == 2 ^ 63 && interval == 1
    then moved_back start (2 ^ 63)
    else pos (start + n / interval * interval)

-- a start that is `late` before now; `Sub` stops at the least int64
unfoldable pub catch_up : ℕ → ℕ → ℕ → Outcome ℤ
catch_up start late interval =
    if interval == 0
    then panic division_by_zero
    else ok (moved start ((if ltb (2 ^ 63) late then 2 ^ 63 else late) + interval) interval)

unfoldable pub first_time : ℕ → ℕ → ℕ → ℕ
first_time start now interval = if start == 0 then truncate now interval else start

-- when `TimeStream` runs its first event
unfoldable pub stream_start : ℕ → ℕ → ℕ → Outcome ℤ
stream_start start now interval =
    let first = first_time start now interval in
    if ltb first now then catch_up first (now - first) interval else ok (pos first)

div-mul : (a b : ℕ) → 0 < b → (a / b * b ≤ a) × (a < a / b * b + b)
div-mul a b h = (omega (arith, div-add-mod' a b), omega (arith, div-add-mod' a b, mod-lt a h))

catch_up_small :
    (start late interval : ℕ)
    → 0 < interval
    → late + interval < 2 ^ 63
    → catch_up start late interval ≡ ok (pos (start + (late + interval) / interval * interval))
unfolding catch_up moved
catch_up_small start late interval h small = ground (arith, h, small)

-- `TimeStream` of a positive interval does not panic, where the time since its start, or where there
-- is none since the present rounded down to a multiple of the interval, is with an interval more
-- below 2^63. If that start is not over, the first event is then; if it is over, the first event is a
-- whole number of intervals later, after now, and at most an interval after now.
pub stream_start_lem :
    (start now interval : ℕ)
    → 0 < interval
    → now - first_time start now interval + interval < 2 ^ 63
    → (t : ℕ) × (stream_start start now interval ≡ ok (pos t))
      × (((now ≤ first_time start now interval) × (t ≡ first_time start now interval))
          ⊎ ((times : ℕ) × (t ≡ first_time start now interval + times * interval)
              × (now < t)
              × (t ≤ now + interval)))
unfolding stream_start
stream_start_lem start now interval h small =
    let first = first_time start now interval in
    if_cases
      (λ o.
        (t : ℕ) × (o ≡ ok (pos t))
        × (((now ≤ first) × (t ≡ first))
            ⊎ ((times : ℕ) × (t ≡ first + times * interval) × (now < t) × (t ≤ now + interval))))
      (ltb first now) _ _
      (λ late.
        let n = (now - first + interval) / interval in
        let b = div-mul (now - first + interval) interval h in
        (
          first + n * interval,
          catch_up_small first (now - first) interval h small,
          inr (n, refl, ground (arith, late, b), ground (arith, late, b)),
        ))
      (λ early. (first, refl, inl (ground arith, refl)))
