-- ===== src/Timers/Tests.antt =====
-- Runs of `Repeat` and `Sleep`, and the theorems of Timers/Repeats at them.
use xtemplate.Prelude.{◌≤◌, ◌≡◌, refl, true, false, ◌||◌, [], ◌∷◌, length, arith}
use xtemplate.Timers.{
  max_int, int_ge, max_of, Repeat, start, close, send, taken, request_ends, broken, Reach, here,
  next, receives, sleep_duration,
}
use xtemplate.Timers.Repeats.{iota, repeat_sends, repeat_completes}

-- Up to 2; two numbers are received, then the request ends.
abbrev twice : Repeat
twice = send (send (start (2 ∷ []) false false))

Reach-twice : Reach (start (2 ∷ []) false false) twice
unfolding send int_ge start
Reach-twice = next (next here (taken refl)) (taken refl)

abbrev stopped : Repeat
stopped = close (record twice { request_done = true })

Reach-stopped : Reach (start (2 ∷ []) false false) stopped
unfolding send int_ge close start
Reach-stopped = next (next Reach-twice request_ends) (broken refl refl)

repeat_sends_example :
    (stopped.sent ≡ iota (length stopped.sent))
    × (length stopped.sent ≤ 3)
    × (stopped.is_open ≡ true → stopped.i ≤ max_int)
    × (stopped.is_open ≡ false
        → (stopped.request_done || stopped.server_done) ≡ false
        → stopped.sent ≡ iota 3)
unfolding max_of
repeat_sends_example = repeat_sends (2 ∷ []) false false stopped (omega arith) Reach-stopped

repeat_completes_example :
    ((receives 1 twice).is_open ≡ false) × ((receives 1 twice).sent ≡ 0 ∷ 1 ∷ 2 ∷ [])
unfolding max_of send int_ge start
repeat_completes_example =
    repeat_completes (2 ∷ []) false false twice (omega arith) Reach-twice refl

-- The least number of milliseconds of which the duration wraps around: it is negative, and `Sleep` does
-- not sleep.
long_sleep : sleep_duration 9223372036855 ≡ 9223372036855000000
unfolding sleep_duration
long_sleep = refl
