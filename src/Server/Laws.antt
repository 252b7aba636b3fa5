-- ===== src/Server/Laws.antt =====
-- What the methods of server.go do for their callers, and what requests meet.
use xtemplate.Prelude.{
  ℕ, ◌+◌, ◌<◌, ◌≡◌, ◌≢◌, ◌⊎◌, inl, inr, Bool-cases, refl, arith, Bool, true, false, not, ◌&&◌, ◌||◌,
  Option, none, some, ◌==◌, ltb,
}
use xtemplate.Prelude.Errors.{Error}
use xtemplate.Server.{
  start, same_pointer, World, Instance, idle, building, stopping, begin_reload, fail_reload,
  panic_reload, publish, retire, begin_stop, finish_stop, compare_and_swap, handle, routed,
  serve_http, nil_dereference, server_stopped, reload, stop, failed, loaded, returns,
}
use xtemplate.Server.Steps.{Step, lock_reload, built, cancelled, Reach, here, next}
use xtemplate.Server.Safety.{Reach-IsSound, holds}

Reach-trans : {s w u : World} → Reach s w → Reach w u → Reach s u
Reach-trans r here = r
Reach-trans r (next r' st) = next (Reach-trans r r') st

-- Whatever `Reload`, `Stop` and other goroutines do before and during a request, none of the options
-- of a `Reload` setting the context: a request that loads the instance `i` and tests its context later
-- is routed by `i` if `i` is still the current instance at the test, the configured context is alive
-- then, and no `Stop` is half done then.
pub handle_routed :
    {identity : ℕ} {root_done : Bool} {w u : World} (i : Instance)
    → Reach (start identity root_done) w
    → w.server.instance_ ≡ some i
    → Reach w u
    → u.server.instance_ ≡ some i
    → u.contexts.root_done ≡ false
    → u.phase ≢ stopping
    → handle w u ≡ routed i.id
unfolding handle
handle_routed {u = u} i r load later still alive going =
    let s = Reach-IsSound (Reach-trans r later) in
    ground (arith, load, s.fits, s.below, s.accounts i.ctx, s.lost_fits i.ctx)

abbrev pub ctx_of : Option Instance → Option ℕ
ctx_of none = none
ctx_of (some i) = some i.ctx

-- Whenever the mutex is free, the contexts that have been made and not cancelled are exactly the
-- context of the current instance and those that a `Reload` lost by a panic of `Config.Instance`: no
-- other `Reload`, failed or not, leaks one. None of the options of a `Reload` sets the context.
pub idle_contexts :
    {identity : ℕ} {root_done : Bool} {w : World} (c : ℕ)
    → Reach (start identity root_done) w
    → w.phase ≡ idle
    → w.contexts.cancelled c ≡ (
        ltb c w.contexts.fresh
        && not (holds (ctx_of w.server.instance_) c)
        && not (w.contexts.lost c))
idle_contexts {w = w} c r p = let s = Reach-IsSound r in ground (arith, s.accounts c, s.fits)

-- The `CompareAndSwap` of `Reload` never fails: whenever `config.Instance` returns, the pointer is
-- still the one that was loaded.
publish_swaps :
    {identity : ℕ} {root_done : Bool} {w : World} (old : Option Instance) (c id : ℕ)
    (new : Instance)
    → Reach (start identity root_done) w
    → w.phase ≡ building old c id
    → compare_and_swap w.server.instance_ old new ≡ (some new, true)
unfolding compare_and_swap
publish_swaps {w = w} old c id new r p = let s = Reach-IsSound r in ground (arith, s.fits)

-- No step puts an older instance in the place of a newer one: if the pointer changes from one
-- instance to another, the identity grows.
identity_grows :
    {identity : ℕ} {root_done : Bool} {w u : World} (i j : Instance)
    → Reach (start identity root_done) w
    → Step w u
    → w.server.instance_ ≡ some i
    → u.server.instance_ ≡ some j
    → (i ≡ j) ⊎ (i.id < j.id)
unfolding begin_reload fail_reload panic_reload publish retire begin_stop finish_stop
identity_grows i j r (built old c id p) e f = let s = Reach-IsSound r in ground (arith, s.fits)
identity_grows i j r (lock_reload p) e f = inl (cc)
identity_grows i j r (cancelled p) e f = cc
identity_grows i j r _ e f = inl (cc)

-- A failed `Reload` returns the error and leaves the server as it was; its new context is
-- cancelled, and no other context.
pub reload_failed :
    (w : World) (e : Error) (c : ℕ)
    → ((reload (failed e) w).1 ≡ returns (some e))
      × ((reload (failed e) w).0.server ≡ w.server)
      × ((reload (failed e) w).0.contexts.cancelled c
          ≡ (w.contexts.fresh == c || w.contexts.cancelled c))
unfolding reload
reload_failed w e c = (refl, refl, refl)

-- A successful `Reload` of a server at rest whose configured context is alive returns no error and
-- routes the next request, if no other step comes before its test, to the new instance, with the
-- next identity, if the options left its context as it was.
pub reload_succeeded :
    {identity : ℕ} {root_done : Bool} {w : World}
    → Reach (start identity root_done) w
    → w.phase ≡ idle
    → w.contexts.root_done ≡ false
    → ((reload (loaded w.contexts.fresh) w).1 ≡ returns none)
      × (handle (reload (loaded w.contexts.fresh) w).0 (reload (loaded w.contexts.fresh) w).0
          ≡ routed (w.next_identity + 1))
unfolding reload handle
reload_succeeded {w = w} r p alive =
    let s = Reach-IsSound r in
    (
      ground arith,
      ground (arith, s.accounts w.contexts.fresh, s.fits, s.below, s.lost_fits w.contexts.fresh),
    )

-- A successful `Reload` of a server at rest makes the instance before it, which has a smaller
-- identity than the new one, refuse: a request that loaded the old pointer before the swap and
-- tests its context after it is answered 500 "server stopped". It is assumed that no option of an earlier
-- `Reload` set the context.
pub reload_refuses_late :
    {identity : ℕ} {root_done : Bool} {w : World} (i : Instance) (ctx : ℕ)
    → Reach (start identity root_done) w
    → w.phase ≡ idle
    → w.server.instance_ ≡ some i
    → (i.id < w.next_identity + 1)
      × (serve_http (reload (loaded ctx) w).0.contexts (some i) ≡ server_stopped)
unfolding reload handle
reload_refuses_late {w = w} i ctx r p e =
    let s = Reach-IsSound r in (ground (arith, s.fits), ground (arith, s.fits))

-- `Stop` of a server at rest cancels every context that was ever made, but those that a `Reload` lost by
-- a panic of `Config.Instance`. A request that loads the pointer while it is as `Stop` left it calls a
-- method of a nil instance, whatever happens before it tests the context. None of the options of a
-- `Reload` sets the context.
pub stop_lem :
    {identity : ℕ} {root_done : Bool} {w : World} (c : ℕ)
    → Reach (start identity root_done) w
    → w.phase ≡ idle
    → ((stop w).contexts.cancelled c ≡ (ltb c w.contexts.fresh && not (w.contexts.lost c)))
      × ((u : World) → handle (stop w) u ≡ nil_dereference)
unfolding stop handle
stop_lem {w = w} c r p =
    let s = Reach-IsSound r in
    (ground (arith, s.accounts c, s.lost_fits c, s.fits, s.below), λ u. refl)

-- Outside the last step of `Stop`, no step takes the pointer back to nil: requests find an instance
-- from the first successful `Reload` on.
pub instance_kept :
    {w u : World} (i : Instance)
    → Step w u
    → w.phase ≢ stopping
    → w.server.instance_ ≡ some i
    → (j : Instance) × (u.server.instance_ ≡ some j)
unfolding begin_reload fail_reload panic_reload publish retire begin_stop compare_and_swap
instance_kept {w} i (built old c id p) going e =
    elim (Bool-cases (same_pointer w.server.instance_ old)) [
      | inl same ↦ (record { id = id; ctx = c }, ground arith)
      | inr other ↦ (i, ground arith)
    ]
instance_kept i (cancelled p) going e = absurd (going p)
instance_kept i _ going e = (i, e)
