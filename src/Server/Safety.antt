-- ===== src/Server/Safety.antt =====
-- What holds of the server of server.go at every moment, whatever the interleaving.
use xtemplate.Prelude.{
  ℕ, ◌+◌, ◌<◌, ◌≤◌, ◌≡◌, arith, Bool, false, not, ◌&&◌, ◌||◌, Option, none, some, ◌==◌, ltb,
}
use xtemplate.Server.{
  start, World, Instance, Phase, idle, building, replacing, stopping, begin_reload, fail_reload,
  panic_reload, publish, retire, begin_stop, finish_stop,
}
use xtemplate.Server.Steps.{
  Step, lock_reload, build_failed, build_panicked, built, swapped, lock_stop, cancelled,
  root_cancelled, other_instance, Reach, here, next,
}

abbrev pub holds : Option ℕ → ℕ → Bool
holds none c = false
holds (some d) c = d == c

-- The contexts that somebody can still cancel.
abbrev owned : Option ℕ → Phase → ℕ → Bool
owned cancel_ idle c = holds cancel_ c
owned cancel_ (building old d id) c = holds cancel_ c || d == c
owned cancel_ (replacing d) c = holds cancel_ c || d == c
owned cancel_ stopping c = false

abbrev Below : Option ℕ → ℕ → Type 0
Below none n = Unit
Below (some c) n = c < n

-- The instance that requests are given, and the context that it runs under.
abbrev Serves : Option Instance → Option ℕ → Type 0
Serves none none = Unit
Serves (some i) (some c) = i.ctx ≡ c
Serves _ _ = ⊥

abbrev InstanceBelow : Option Instance → ℕ → Type 0
InstanceBelow none n = Unit
InstanceBelow (some i) n = i.id < n

abbrev PhaseFits : Option Instance → Option ℕ → Phase → ℕ → ℕ → Type 0
PhaseFits i cancel_ idle fresh n = Serves i cancel_ × InstanceBelow i (n + 1)
PhaseFits i cancel_ (building old c id) fresh n =
    Serves i cancel_
    × (old ≡ i)
    × InstanceBelow i id
    × (id ≤ n)
    × (c < fresh)
    × (holds cancel_ c ≡ false)
PhaseFits i cancel_ (replacing c) fresh n =
    Serves i (some c) × InstanceBelow i (n + 1) × (c < fresh) × (holds cancel_ c ≡ false)
PhaseFits i cancel_ stopping fresh n = Serves i cancel_ × InstanceBelow i (n + 1)

pub record IsSound (w : World) : Type 0 where
  -- the contexts that nobody can cancel any more have been cancelled, or were lost
  pub accounts :
      (c : ℕ)
      → w.contexts.cancelled c ≡ (
          ltb c w.contexts.fresh
          && not (owned w.server.cancel_ w.phase c)
          && not (w.contexts.lost c))
  pub lost_fits :
      (c : ℕ)
      → (w.contexts.lost c
          && not (ltb c w.contexts.fresh && not (owned w.server.cancel_ w.phase c)))
        ≡ false
  pub below : Below w.server.cancel_ w.contexts.fresh
  pub fits : PhaseFits w.server.instance_ w.server.cancel_ w.phase w.contexts.fresh w.next_identity

module _ {w : World} where
  begin_reload-IsSound : w.phase ≡ idle → IsSound w → IsSound (begin_reload w)
  unfolding begin_reload
  begin_reload-IsSound p s = record {
    accounts = λ c. ground (arith, s.accounts c, s.lost_fits c);
    lost_fits = λ c. ground (arith, s.accounts c, s.lost_fits c);
    below = ground (arith, s.below);
    fits = ground (arith, s.fits, s.below, s.accounts w.contexts.fresh);
  }

  fail_reload-IsSound :
      (old : Option Instance) (c id : ℕ)
      → w.phase ≡ building old c id
      → IsSound w
      → IsSound (fail_reload c w)
  unfolding fail_reload
  fail_reload-IsSound old d id p s = record {
    accounts = λ c. ground (arith, s.accounts c, s.fits, s.lost_fits c);
    lost_fits = λ c. ground (arith, s.accounts c, s.fits, s.lost_fits c);
    below = ground (arith, s.below);
    fits = ground (arith, s.fits);
  }

  panic_reload-IsSound :
      (old : Option Instance) (c id : ℕ)
      → w.phase ≡ building old c id
      → IsSound w
      → IsSound (panic_reload c w)
  unfolding panic_reload
  panic_reload-IsSound old d id p s = record {
    accounts = λ c. ground (arith, s.accounts c, s.fits, s.lost_fits c);
    lost_fits = λ c. ground (arith, s.accounts c, s.fits, s.lost_fits c);
    below = ground (arith, s.below);
    fits = ground (arith, s.fits);
  }

  publish-IsSound :
      (old : Option Instance) (c id : ℕ)
      → w.phase ≡ building old c id
      → IsSound w
      → IsSound (publish old c (record { id = id; ctx = c }) w)
  unfolding publish
  publish-IsSound old d id p s = record {
    accounts = λ c. ground (arith, s.accounts c, s.fits, s.lost_fits c);
    lost_fits = λ c. ground (arith, s.accounts c, s.fits, s.lost_fits c);
    below = ground (arith, s.below);
    fits = ground (arith, s.fits);
  }

  retire-IsSound : (c : ℕ) → w.phase ≡ replacing c → IsSound w → IsSound (retire c w)
  unfolding retire
  retire-IsSound d p s = record {
    accounts = λ c. ground (arith, s.accounts c, s.fits, s.below, s.lost_fits c);
    lost_fits = λ c. ground (arith, s.accounts c, s.fits, s.below, s.lost_fits c);
    below = ground (arith, s.below, s.fits);
    fits = ground (arith, s.fits);
  }

  begin_stop-IsSound : w.phase ≡ idle → IsSound w → IsSound (begin_stop w)
  unfolding begin_stop
  begin_stop-IsSound p s = record {
    accounts = λ c. ground (arith, s.accounts c, s.fits, s.below, s.lost_fits c);
    lost_fits = λ c. ground (arith, s.accounts c, s.fits, s.below, s.lost_fits c);
    below = ground (arith, s.below);
    fits = ground (arith, s.fits);
  }

  finish_stop-IsSound : w.phase ≡ stopping → IsSound w → IsSound (finish_stop w)
  unfolding finish_stop
  finish_stop-IsSound p s = record {
    accounts = λ c. ground (arith, s.accounts c, s.lost_fits c);
    lost_fits = λ c. ground (arith, s.accounts c, s.lost_fits c);
    below = tt;
    fits = ground (arith, s.fits);
  }

PhaseFits-later :
    (i : Option Instance) (cancel_ : Option ℕ) (p : Phase) (fresh m n : ℕ)
    → PhaseFits i cancel_ p fresh m
    → PhaseFits i cancel_ p fresh (m + n)
PhaseFits-later i cancel_ idle fresh m n h = ground arith
PhaseFits-later i cancel_ _ fresh m n h = ground arith

Step-IsSound : {w u : World} → Step w u → IsSound w → IsSound u
Step-IsSound (lock_reload p) s = begin_reload-IsSound p s
Step-IsSound (build_failed old c id p) s = fail_reload-IsSound old c id p s
Step-IsSound (build_panicked old c id p) s = panic_reload-IsSound old c id p s
Step-IsSound (built old c id p) s = publish-IsSound old c id p s
Step-IsSound (swapped c p) s = retire-IsSound c p s
Step-IsSound (lock_stop p) s = begin_stop-IsSound p s
Step-IsSound (cancelled p) s = finish_stop-IsSound p s
Step-IsSound root_cancelled s = record {
  accounts = s.accounts;
  lost_fits = s.lost_fits;
  below = s.below;
  fits = s.fits;
}
Step-IsSound {w} (other_instance n) s = record {
  accounts = s.accounts;
  lost_fits = s.lost_fits;
  below = s.below;
  fits =
      PhaseFits-later w.server.instance_ w.server.cancel_ w.phase w.contexts.fresh w.next_identity n
        s.fits;
}

pub start-IsSound : (identity : ℕ) (root_done : Bool) → IsSound (start identity root_done)
start-IsSound identity root_done = record {
  accounts = λ c. ground arith;
  lost_fits = λ c. ground arith;
  below = tt;
  fits = ground arith;
}

pub Reach-IsSound :
    {identity : ℕ} {root_done : Bool} {w : World} → Reach (start identity root_done) w → IsSound w
Reach-IsSound {identity} {root_done} here = start-IsSound identity root_done
Reach-IsSound (next r st) = Step-IsSound st (Reach-IsSound r)
