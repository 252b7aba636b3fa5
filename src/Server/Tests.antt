-- ===== src/Server/Tests.antt =====
-- Runs of the server, and the theorems of Server/Laws at them.
use xtemplate.Prelude.{◌+◌, ◌<◌, ◌≡◌, refl, false, not, ◌&&◌, none, some, ltb}
use xtemplate.Prelude.Errors.{ok}
use xtemplate.Server
use xtemplate.Server.{
  start, World, Instance, begin_reload, publish, retire, handle, routed, serve_http, server_stopped,
  nil_dereference, reload, stop, new_server,
}
use xtemplate.Server.Steps.{lock_reload, built, swapped, Reach, here, next}
use xtemplate.Server.Safety.{holds}
use xtemplate.Server.Laws.{handle_routed, ctx_of, idle_contexts, reload_refuses_late, stop_lem}

abbrev first : Instance
first = record { id = 1; ctx = 0 }

-- One `Reload` of a new server, to its end, and the next one up to `config.Instance`.
abbrev locked : World
locked = begin_reload (start 0 false)

abbrev loaded : World
loaded = retire 0 (publish none 0 first locked)

Reach-loaded : Reach (start 0 false) loaded
unfolding begin_reload publish retire
Reach-loaded = next (next (next here (lock_reload refl)) (built none 0 1 refl)) (swapped 0 refl)

abbrev locked_again : World
locked_again = begin_reload loaded

Reach-locked_again : Reach (start 0 false) locked_again
unfolding begin_reload publish retire
Reach-locked_again = next Reach-loaded (lock_reload refl)

new_server_runs : new_server 0 false (Server.loaded 0) ≡ some (ok loaded)
unfolding new_server begin_reload publish retire
new_server_runs = refl

handle_routed_example : handle loaded locked_again ≡ routed 1
unfolding begin_reload publish retire
handle_routed_example =
    handle_routed first Reach-loaded refl (next here (lock_reload refl)) refl refl (λ p. cc)

idle_contexts_example : loaded.contexts.cancelled 0 ≡ (
    ltb 0 loaded.contexts.fresh
    && not (holds (ctx_of loaded.server.instance_) 0)
    && not (loaded.contexts.lost 0))
unfolding begin_reload publish retire
idle_contexts_example = idle_contexts 0 Reach-loaded refl

reload_refuses_late_example :
    (first.id < loaded.next_identity + 1)
    × (serve_http (reload (Server.loaded 1) loaded).0.contexts (some first) ≡ server_stopped)
unfolding begin_reload publish retire
reload_refuses_late_example = reload_refuses_late first 1 Reach-loaded refl refl

stop_lem_example :
    ((stop loaded).contexts.cancelled 0
      ≡ (ltb 0 loaded.contexts.fresh && not (loaded.contexts.lost 0)))
    × ((u : World) → handle (stop loaded) u ≡ nil_dereference)
unfolding begin_reload publish retire
stop_lem_example = stop_lem 0 Reach-loaded refl
