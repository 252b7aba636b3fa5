-- ===== src/Server.antt =====
-- server.go: the reloadable server, and the part of instance.go that it races with: the counter of
-- instance identities and the test of the context at the start of `Instance.ServeHTTP`.
pub mod Steps
pub mod Safety
pub mod Laws
mod Tests
use xtemplate.Prelude.{ℕ, ◌+◌, ◌||◌, Bool, true, false, Option, none, some, ◌==◌, if◌then◌else◌}
use xtemplate.Prelude.Errors.{Error, Result, ok, err}

-- The contexts that `context.WithCancel(x.config.Ctx)` has made: those below `fresh`. All are
-- children of the configured context, `root`. `lost` are those whose cancel function went with a panic.
pub record Contexts : Type 0 where
  pub fresh : ℕ
  pub root_done : Bool
  pub cancelled : ℕ → Bool
  pub lost : ℕ → Bool

pub cancel : ℕ → Contexts → Contexts
cancel c k = record k { cancelled = λ d. c == d || k.cancelled d }

-- `ctx.Done()` is closed
pub is_done : Contexts → ℕ → Bool
is_done k c = k.root_done || k.cancelled c

-- What the server sees of an `Instance`: its identity, which also serves as its address, and the context
-- of its configuration, to which the options have been applied.
pub record Instance : Type 0 where
  pub id : ℕ
  pub ctx : ℕ

-- The function in `cancel` is given by the context that it cancels.
pub record Server : Type 0 where
  pub instance_ : Option Instance
  pub cancel_ : Option ℕ

-- Where the one holder of the mutex stands. `building old c id`: `Reload` has loaded `old` and runs
-- `config.Instance`, which took the identity `id`. `replacing c`: the pointer is swapped.
-- `stopping`: `Stop` has called the cancel function.
pub data Phase : Type 0 where
  idle : Phase
  building : Option Instance → ℕ → ℕ → Phase
  replacing : ℕ → Phase
  stopping : Phase

-- `next_identity` is the counter of the process, `nextInstanceIdentity`.
pub record World : Type 0 where
  pub server : Server
  pub contexts : Contexts
  pub next_identity : ℕ
  pub phase : Phase

same_pointer : Option Instance → Option Instance → Bool
same_pointer none none = true
same_pointer (some i) (some j) = i.id == j.id
same_pointer _ _ = false

-- `atomic.Pointer.CompareAndSwap`: the new pointer, and whether it was stored
pub compare_and_swap : Option Instance → Option Instance → Instance → Option Instance × Bool
unfolding same_pointer
compare_and_swap current old new =
    if same_pointer current old then (some new, true) else (current, false)

-- `if x.cancel != nil { x.cancel() }`
call_cancel : Option ℕ → Contexts → Contexts
unfolding cancel
call_cancel none k = k
call_cancel (some c) k = cancel c k

-- The steps of `Reload` and `Stop`, each up to the next access that another goroutine can see.
pub begin_reload : World → World
begin_reload w = record w {
  contexts = record w.contexts { fresh = w.contexts.fresh + 1 };
  next_identity = w.next_identity + 1;
  phase = building w.server.instance_ w.contexts.fresh (w.next_identity + 1);
}

-- `newcancel()`, and the return of the error
pub fail_reload : ℕ → World → World
unfolding cancel
fail_reload c w = record w { contexts = cancel c w.contexts; phase = idle }

-- A panic of `config.Instance`: the mutex is freed by the deferred call, and `newcancel` is not called.
pub panic_reload : ℕ → World → World
panic_reload c w = record w {
  contexts = record w.contexts { lost = λ d. c == d || w.contexts.lost d };
  phase = idle;
}

pub publish : Option Instance → ℕ → Instance → World → World
unfolding compare_and_swap
publish old c new w = record w {
  server = record w.server { instance_ = (compare_and_swap w.server.instance_ old new).0 };
  phase = replacing c;
}

pub retire : ℕ → World → World
unfolding call_cancel
retire c w = record w {
  contexts = call_cancel w.server.cancel_ w.contexts;
  server = record w.server { cancel_ = some c };
  phase = idle;
}

pub begin_stop : World → World
unfolding call_cancel
begin_stop w = record w { contexts = call_cancel w.server.cancel_ w.contexts; phase = stopping }

pub finish_stop : World → World
finish_stop w = record w { server = record { instance_ = none; cancel_ = none }; phase = idle }

-- How `config.Instance` ends: with an error, a panic, or an instance with this context.
pub data Build : Type 0 where
  failed : Error → Build
  panicked : Build
  loaded : ℕ → Build

-- What a caller of `Reload` sees.
pub data Return : Type 0 where
  panics : Return
  returns : Option Error → Return

after_build : Build → Phase → World → World × Return
unfolding fail_reload panic_reload publish retire
after_build (failed e) (building old c id) w = (fail_reload c w, returns (some e))
after_build panicked (building old c id) w = (panic_reload c w, panics)
after_build (loaded ctx) (building old c id) w =
    (retire c (publish old c (record { id = id; ctx = ctx }) w), returns none)
after_build _ _ w = (w, returns none)

-- `Reload` with no other step in between.
pub reload : Build → World → World × Return
unfolding after_build begin_reload
reload built w = let w' = begin_reload w in after_build built w'.phase w'

pub stop : World → World
unfolding begin_stop finish_stop
stop w = finish_stop (begin_stop w)

-- The end of a request at the start of `ServeHTTP`: a method call on a nil pointer that reads a
-- field, the answer 500 "server stopped", or the router of the instance.
pub data Entry : Type 0 where
  nil_dereference : Entry
  server_stopped : Entry
  routed : ℕ → Entry

pub serve_http : Contexts → Option Instance → Entry
unfolding is_done
serve_http k none = nil_dereference
serve_http k (some i) = if is_done k i.ctx then server_stopped else routed i.id

-- `Handler`: a request loads the pointer at `w`, and tests the context of what it has loaded later, at
-- `u`.
pub handle : World → World → Entry
unfolding serve_http
handle w u = serve_http u.contexts w.server.instance_

-- `none`: a panic of the first `Reload`.
opened : World × Return → Option (Result World)
opened (w, panics) = none
opened (w, returns none) = some (ok w)
opened (w, returns (some e)) = some (err e)

-- The server that `Config.Server` makes, before its first `Reload`.
abbrev pub start : ℕ → Bool → World
start identity root_done = record {
  server = record { instance_ = none; cancel_ = none };
  contexts = record { fresh = 0; root_done = root_done; cancelled = λ _. false; lost = λ _. false };
  next_identity = identity;
  phase = idle;
}

-- The end of `Config.Server`: no server is returned if the first `Reload` fails.
pub new_server : ℕ → Bool → Build → Option (Result World)
unfolding reload opened
new_server identity root_done built = opened (reload built (start identity root_done))
