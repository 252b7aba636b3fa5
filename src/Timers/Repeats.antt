-- ===== src/Timers/Repeats.antt =====
-- What a reader receives of the channel of `Repeat`.
use xtemplate.Prelude.{
  ℕ, zero, suc, ◌+◌, ◌-◌, ◌*◌, ◌↔◌, ◌≤◌, ◌<◌, ◌≡◌, refl, sym, ◌∙◌, ap, arith, Bool, true, false,
  ◌||◌, inl, inr, Bool-cases, List, [], ◌∷◌, ◌++◌, leb, ltb, length, length-append, if◌then◌else◌,
}
use xtemplate.Timers.{
  word, int_min, max_int, int_ge, max_of, Repeat, start, close, send, Step, taken, broken,
  request_ends, server_ends, Reach, here, next, receive, receives, sleep_duration,
}

-- 0, 1, …, n - 1
abbrev pub iota : ℕ → List ℕ
iota zero = []
iota (suc n) = iota n ++ n ∷ []

-- How many numbers a `Repeat` with this maximum has: of a negative one, only 0.
abbrev pub turns : ℕ → ℕ
turns max = if ltb max int_min then max + 1 else 1

int_ge_lem : (i max : ℕ) → max < word → i < turns max → int_ge i max ≡ leb (turns max) (i + 1)
unfolding int_ge
int_ge_lem i max fits below = ground (arith, fits, below)

-- What holds of the goroutine however far it has come.
record IsSound (max : ℕ) (r : Repeat) : Type 0 where
  same_max : r.max ≡ max
  numbers : r.sent ≡ iota (length r.sent)
  bounded : length r.sent ≤ turns max
  running : r.is_open ≡ true → (length r.sent ≡ r.i) × (r.i < turns max)
  complete :
      r.is_open ≡ false → (r.request_done || r.server_done) ≡ false → length r.sent ≡ turns max

turns_pos : (max : ℕ) → 0 < turns max
turns_pos max = ground arith

-- One number more.
appended :
    (xs : List ℕ) (i : ℕ)
    → xs ≡ iota (length xs)
    → length xs ≡ i
    → xs ++ i ∷ [] ≡ iota (length (xs ++ i ∷ []))
appended xs i numbers same =
    let longer : length (xs ++ i ∷ []) ≡ suc (length xs) =
      omega (arith, length-append xs (i ∷ [])) in
    rw longer (rw (sym same) (ap (λ l. l ++ length xs ∷ []) numbers))

send-IsSound :
    (max : ℕ) (r : Repeat) → max < word → IsSound max r → r.is_open ≡ true → IsSound max (send r)
unfolding send close
send-IsSound max r fits s open_ =
    let (same, below) = s.running open_ in
    let longer : length (r.sent ++ r.i ∷ []) ≡ r.i + 1 =
      omega (arith, length-append r.sent (r.i ∷ []), same) in
    let test = int_ge_lem r.i max fits below in
    elim (Bool-cases (leb (turns max) (r.i + 1))) [
      | inl last ↦ rw s.same_max (
          rw (test ∙ last) (record {
            same_max = refl;
            numbers = appended r.sent r.i s.numbers same;
            bounded = omega (arith, longer, below);
            running = λ o. absurd (ground (arith, o));
            complete = λ c d. ground (arith, last, longer, below);
          }))
      | inr more ↦ rw s.same_max (
          rw (test ∙ more) (record {
            same_max = refl;
            numbers = appended r.sent r.i s.numbers same;
            bounded = omega (arith, longer, below);
            running = λ o. ground (arith, more, longer, below, fits);
            complete = λ c d. absurd (ground (arith, c, open_));
          }))
    ]

start-IsSound : (args : List ℕ) (a b : Bool) → IsSound (max_of args) (start args a b)
unfolding start
start-IsSound args a b = record {
  same_max = refl;
  numbers = refl;
  bounded = omega arith;
  running = λ o. (refl, turns_pos (max_of args));
  complete = λ c d. absurd (ground (arith, c));
}

step-IsSound : (max : ℕ) {r u : Repeat} → max < word → IsSound max r → Step r u → IsSound max u
unfolding close
step-IsSound max {r} fits s (taken open_) = send-IsSound max r fits s open_
step-IsSound max {r} fits s (broken open_ ended) = record {
  same_max = s.same_max;
  numbers = s.numbers;
  bounded = s.bounded;
  running = λ o. absurd (ground (arith, o));
  complete = λ c d. absurd (ground (arith, d, ended));
}
step-IsSound max {r} fits s request_ends = record {
  same_max = s.same_max;
  numbers = s.numbers;
  bounded = s.bounded;
  running = s.running;
  complete = λ c d. absurd (ground (arith, d));
}
step-IsSound max {r} fits s server_ends = record {
  same_max = s.same_max;
  numbers = s.numbers;
  bounded = s.bounded;
  running = s.running;
  complete = λ c d. absurd (ground (arith, d));
}

Reach-IsSound :
    (args : List ℕ) (a b : Bool) {r : Repeat}
    → max_of args < word
    → Reach (start args a b) r
    → IsSound (max_of args) r
Reach-IsSound args a b fits here = start-IsSound args a b
Reach-IsSound args a b fits (next rs st) =
    step-IsSound (max_of args) fits (Reach-IsSound args a b fits rs) st

-- However the reader, the goroutine and the two contexts go on, what is received of the channel are the
-- numbers 0, 1, … without a gap, at most max + 1 of them, or only 0 if max is negative; while the
-- channel is open the counter is at most math.MaxInt64, so that it never wraps around; and if it was
-- closed while no context has ended, then all of the numbers were received. The maximum is an int, or
-- math.MaxInt64 if none is given.
pub repeat_sends :
    (args : List ℕ) (a b : Bool) (r : Repeat)
    → max_of args < word
    → Reach (start args a b) r
    → (r.sent ≡ iota (length r.sent))
      × (length r.sent ≤ turns (max_of args))
      × (r.is_open ≡ true → r.i ≤ max_int)
      × (r.is_open ≡ false
          → (r.request_done || r.server_done) ≡ false
          → r.sent ≡ iota (turns (max_of args)))
repeat_sends args a b r fits reached =
    let s = Reach-IsSound args a b fits reached in
    (
      s.numbers,
      s.bounded,
      (λ o. let below = (s.running o).1 in ground (arith, below)),
      λ c d. s.numbers ∙ ap iota (s.complete c d),
    )

receive-closed : (r : Repeat) → r.is_open ≡ false → receive r ≡ r
unfolding receive
receive-closed r h = ap (λ b. if b then send r else r) h

receive-open : (r : Repeat) → r.is_open ≡ true → receive r ≡ send r
unfolding receive
receive-open r h = ap (λ b. if b then send r else r) h

receives-closed : (n : ℕ) (r : Repeat) → r.is_open ≡ false → receives n r ≡ r
unfolding receives
receives-closed zero r h = refl
receives-closed (suc n) r h = ap (receives n) (receive-closed r h) ∙ receives-closed n r h

-- A send that leaves the channel open, and one that closes it.
send-length :
    (max : ℕ) (r : Repeat)
    → max < word
    → IsSound max r
    → r.is_open ≡ true
    → (length (send r).sent ≡ length r.sent + 1)
      × ((send r).is_open ≡ false → length (send r).sent ≡ turns max)
unfolding send close
send-length max r fits s open_ =
    let (same, below) = s.running open_ in
    let longer : length (r.sent ++ r.i ∷ []) ≡ length r.sent + 1 =
      omega (arith, length-append r.sent (r.i ∷ [])) in
    let test = int_ge_lem r.i max fits below in
    elim (Bool-cases (leb (turns max) (r.i + 1))) [
      | inl last ↦
          rw s.same_max (rw (test ∙ last) (longer, λ c. ground (arith, longer, last, below, same)))
      | inr more ↦ rw s.same_max (rw (test ∙ more) (longer, λ c. absurd (ground (arith, c, open_))))
    ]

receives-all :
    (max k : ℕ) (r : Repeat)
    → max < word
    → IsSound max r
    → r.is_open ≡ true
    → length r.sent + k ≡ turns max
    → ((receives k r).is_open ≡ false) × ((receives k r).sent ≡ iota (turns max))
unfolding receives
receives-all max zero r fits s open_ left =
    let (same, below) = s.running open_ in absurd (omega (arith, same, below, left))
receives-all max (suc k) r fits s open_ left =
    let t = send-IsSound max r fits s open_ in
    let (longer, at_end) = send-length max r fits s open_ in
    let turned : receives (suc k) r ≡ receives k (send r) =
      ap (receives k) (receive-open r open_) in
    rw turned (elim (Bool-cases ((send r).is_open)) [
      | inl going ↦ receives-all max k (send r) fits t going (omega (arith, longer, left))
      | inr closed ↦
          rw (receives-closed k (send r) closed) (closed, t.numbers ∙ ap iota (at_end closed))
    ])

-- From every state that a Repeat reaches with its channel open, a reader that goes on receiving, with
-- `select` taking the send each time, gets the rest of the numbers up to the maximum, after which the
-- channel is closed, so that the reader's range ends. The maximum is an int, or math.MaxInt64 if none
-- is given.
pub repeat_completes :
    (args : List ℕ) (a b : Bool) (r : Repeat)
    → max_of args < word
    → Reach (start args a b) r
    → r.is_open ≡ true
    → let rest = turns (max_of args) - length r.sent in
      ((receives rest r).is_open ≡ false) × ((receives rest r).sent ≡ iota (turns (max_of args)))
repeat_completes args a b r fits reached open_ =
    let s = Reach-IsSound args a b fits reached in
    receives-all (max_of args) _ r fits s open_ (omega (arith, s.bounded))

-- For an int that is not negative, `Sleep` waits for that many milliseconds exactly if there are at most
-- 9223372036854 of them: for more, the product wraps around, or is read as a negative duration, of
-- which `time.After` is ready at once.
sleep_exact :
    (ms : ℕ)
    → ms < int_min
    → ((sleep_duration ms ≡ ms * 1000000) × (sleep_duration ms < int_min)) ↔ (ms ≤ 9223372036854)
unfolding sleep_duration
sleep_exact ms h = ground arith
