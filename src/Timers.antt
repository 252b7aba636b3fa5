-- ===== src/Timers.antt =====
-- dot_flush.go: `Repeat`, `Sleep` and `WaitForServerStop`, the methods of DotFlush by which a template
-- goes on for as long as a client listens. An `int` and a `time.Duration` are words of 64 bits in
-- two's complement.
pub mod Repeats
mod Tests
use xtemplate.Prelude.{
  ℕ, zero, suc, ◌+◌, ◌*◌, ◌%◌, ◌≡◌, Bool, true, false, ◌||◌, List, [], ◌∷◌, ◌++◌, Text, leb,
  if◌then◌else◌,
}
use xtemplate.Prelude.Errors.{Result, ok, err, return_error}
use xtemplate.Http.{Response, flush}

abbrev pub word : ℕ
word = 18446744073709551616

-- `math.MaxInt64 + 1`, which as an `int` is the least one
abbrev pub int_min : ℕ
int_min = 9223372036854775808

abbrev pub max_int : ℕ
max_int = 9223372036854775807

-- `a >= b` of two `int`
unfoldable pub int_ge : ℕ → ℕ → Bool
int_ge a b = leb ((b + int_min) % word) ((a + int_min) % word)

-- The variadic parameter of `Repeat`
pub max_of : List ℕ → ℕ
max_of [] = max_int
max_of (max ∷ more) = max

-- The goroutine of `Repeat` with what was received of the channel, the first number first.
pub record Repeat : Type 0 where
  pub max : ℕ
  pub i : ℕ
  pub sent : List ℕ
  pub is_open : Bool
  pub request_done : Bool
  pub server_done : Bool

unfoldable pub start : List ℕ → Bool → Bool → Repeat
unfolding max_of
start args request_done server_done = record {
  max = max_of args;
  i = 0;
  sent = [];
  is_open = true;
  request_done = request_done;
  server_done = server_done;
}

pub close : Repeat → Repeat
close r = record r { is_open = false }

-- `case c <- i`, and the rest of the loop's body
pub send : Repeat → Repeat
unfolding close int_ge
send r =
    let s = record r { sent = r.sent ++ r.i ∷ [] } in
    if int_ge r.i r.max then close s else record s { i = (r.i + 1) % word }

-- One turn of the loop, or a context that ends. `select` takes any case that is ready, so that a number
-- may still be sent when a context is done.
pub data Step (r : Repeat) : Repeat → Type 0 where
  taken : r.is_open ≡ true → Step r (send r)
  broken : r.is_open ≡ true → (r.request_done || r.server_done) ≡ true → Step r (close r)
  request_ends : Step r (record r { request_done = true })
  server_ends : Step r (record r { server_done = true })

pub data Reach (s : Repeat) : Repeat → Type 0 where
  here : Reach s s
  next : {t u : Repeat} → Reach s t → Step t u → Reach s u

-- A reader that receives once: of a closed channel there is nothing.
pub receive : Repeat → Repeat
unfolding send
receive r = if r.is_open then send r else r

pub receives : ℕ → Repeat → Repeat
unfolding receive
receives zero r = r
receives (suc n) r = receives n (receive r)

-- `time.Duration(ms) * time.Millisecond`
pub sleep_duration : ℕ → ℕ
sleep_duration ms = (ms * 1000000) % word

-- The context that ended: that of the request, or that of the server.
pub data Done : Type 0 where
  by_request by_server : Done

-- The case that the `select` of `Sleep` takes.
pub data Ready : Type 0 where
  after : Ready
  done : Done → Ready

sleep : Ready → Result Text
sleep after = ok []
sleep (done d) = err return_error

wait_for_server_stop : Done → Result Text
wait_for_server_stop by_request = err return_error
wait_for_server_stop by_server = ok []

-- `DotFlush.Flush`, which returns an empty string.
flush_now : Response → Response × Text
unfolding flush
flush_now w = (flush w, [])
