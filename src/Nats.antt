-- ===== src/Nats.antt =====
-- dot_nats.go and dot_kv.go: the methods of the fields for NATS and for a key-value store of it.
pub mod Stores
mod Tests
use xtemplate.Prelude.{ℕ, ◌≡◌, Bool, true, false, Option, none, some, List, [], ◌∷◌, Text}
use xtemplate.Prelude.Errors.{Error, Result, ok, err, errorf}

-- The client library on a state `W` of the servers. Subscriptions, messages and watchers are numbers.
pub record Client (W : Type 0) : Type 0 where
  pub chan_subscribe : Text → W → W × Result ℕ
  pub unsubscribe : ℕ → W → W
  pub publish : Text → Text → W → W × Option Error
  pub request : Text → Text → ℕ → W → W × Result ℕ
  pub put_string : Text → Text → W → W × Result ℕ
  pub get : Text → W → W × Result Text
  pub delete : Text → W → W × Option Error
  pub purge : Text → W → W × Option Error
  pub watch : Text → W → W × Result ℕ

-- The channel of a subscription: open, left by the client library, or closed.
pub data Channel : Type 0 where
  listening left closed : Channel

pub record Subscription (W : Type 0) : Type 0 where
  pub world : W
  pub sub : ℕ
  pub channel : Channel
  pub done : Bool

-- `5 * time.Second`
abbrev pub five_seconds : ℕ
five_seconds = 5000000000

module _ {W : Type 0} (o : Client W) where
  subscribed : Bool → W × Result ℕ → W × Result (Subscription W)
  subscribed done (w, err e) = (w, err e)
  subscribed done (w, ok sub) =
      (w, ok (record { world = w; sub = sub; channel = listening; done = done }))

  -- `DotNats.Subscribe`, of a context that may be done already
  nats_subscribe : Bool → Text → W → W × Result (Subscription W)
  unfolding subscribed
  nats_subscribe done subject w = subscribed done (o.chan_subscribe subject w)

  -- `sub.Unsubscribe()` and `close(ch)`
  pub leave : Subscription W → Subscription W
  leave s = record s { world = o.unsubscribe s.sub s.world; channel = left }

  pub close : Subscription W → Subscription W
  close s = record s { channel = closed }

  -- The goroutine of `Subscribe`, the end of the context, and what else happens to the servers.
  pub data Step (s : Subscription W) : Subscription W → Type 0 where
    context_ends : Step s (record s { done = true })
    leaves : s.channel ≡ listening → s.done ≡ true → Step s (leave s)
    closes : s.channel ≡ left → Step s (close s)
    elsewhere : (w : W) → Step s (record s { world = w })

  nats_publish : Text → Text → W → W × Option Error
  nats_publish subject message w = o.publish subject message w

  -- The switch on `len(timeout_)`
  pub nats_request : Text → Text → List ℕ → W → W × Result ℕ
  nats_request subject data_ [] w = o.request subject data_ five_seconds w
  nats_request subject data_ (timeout ∷ []) w = o.request subject data_ timeout w
  nats_request subject data_ (timeout ∷ more) w = (w, err (errorf "too many timeout args" []))

  error_of : W × Result ℕ → W × Option Error
  error_of (w, ok n) = (w, none)
  error_of (w, err e) = (w, some e)

  pub kv_put : Text → Text → W → W × Option Error
  unfolding error_of
  kv_put key value w = error_of (o.put_string key value w)

  pub kv_get : Text → W → W × Result Text
  kv_get key w = o.get key w

  pub kv_delete : Text → W → W × Option Error
  kv_delete key w = o.delete key w

  pub kv_purge : Text → W → W × Option Error
  kv_purge key w = o.purge key w

  -- With the option `UpdatesOnly`
  kv_watch : Text → W → W × Result ℕ
  kv_watch keys w = o.watch keys w
