-- ===== src/Server/Steps.antt =====
-- The interleavings of server.go: `Reload` and `Stop` hold the mutex from their first step to their
-- last, so one of them at most is under way; everything else may happen between any two steps. The
-- options of a `Reload` leave the context in the configuration as it is.
use xtemplate.Prelude.{ℕ, ◌+◌, ◌≡◌, true, Option}
use xtemplate.Server.{
  World, Instance, idle, building, replacing, stopping, begin_reload, fail_reload, panic_reload,
  publish, retire, begin_stop, finish_stop,
}

pub data Step (w : World) : World → Type 0 where
  lock_reload : w.phase ≡ idle → Step w (begin_reload w)
  build_failed :
      (old : Option Instance) (c id : ℕ) → w.phase ≡ building old c id → Step w (fail_reload c w)
  build_panicked :
      (old : Option Instance) (c id : ℕ) → w.phase ≡ building old c id → Step w (panic_reload c w)
  built :
      (old : Option Instance) (c id : ℕ)
      → w.phase ≡ building old c id
      → Step w (publish old c (record { id = id; ctx = c }) w)
  swapped : (c : ℕ) → w.phase ≡ replacing c → Step w (retire c w)
  lock_stop : w.phase ≡ idle → Step w (begin_stop w)
  cancelled : w.phase ≡ stopping → Step w (finish_stop w)
  -- the configured context ends
  root_cancelled : Step w (record w { contexts = record w.contexts { root_done = true } })
  -- another server of the process takes identities
  other_instance : (n : ℕ) → Step w (record w { next_identity = w.next_identity + n })

pub data Reach (s : World) : World → Type 0 where
  here : Reach s s
  next : {t u : World} → Reach s t → Step t u → Reach s u
