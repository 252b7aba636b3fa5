-- ===== src/Instance/Loops.antt =====
-- The loop over `Init` in `Config.Instance`.
use xtemplate.Prelude.{All, ℕ, ◌≡◌, refl, arith, true, Option, none, some, List, [], ◌∷◌, map, Text}
use xtemplate.Prelude.Errors.{Error}
use xtemplate.Providers.{Provider, field_name}
use xtemplate.Providers.Ready.{is_ready, init-is_ready}
use xtemplate.Providers.Laws.{init-field_name}
use xtemplate.Instance.{Surroundings, next_init, init_loop}

abbrev pub AreReady : List Provider → Type 0
AreReady ps = All (λ p. is_ready p ≡ true) ps

module _ {W : Type 0} (s : Surroundings W) where
  abbrev pub names : List Provider → List Text
  names ps = map (field_name s.outside) ps

  next_init-names :
      (rest : W → W × List Provider × Option Error) (p : Provider) (ps : List Provider)
      (r : W × Provider × Option Error)
      → field_name s.outside r.1 ≡ field_name s.outside p
      → ((w : W) → (rest w).2 ≡ none → names (rest w).1 ≡ names ps)
      → (next_init s rest (field_name s.outside p) r).2 ≡ none
      → names (next_init s rest (field_name s.outside p) r).1 ≡ names (p ∷ ps)
  unfolding next_init
  next_init-names rest p ps (w, q, some e) same h done = absurd (ground (arith, done))
  next_init-names rest p ps (w, q, none) same h done = cc (same, h w done)

  pub init_loop-names :
      (ctx : ℕ) (ps : List Provider) (w : W)
      → (init_loop s ctx ps w).2 ≡ none
      → names (init_loop s ctx ps w).1 ≡ names ps
  unfolding init_loop
  init_loop-names ctx [] w h = refl
  init_loop-names ctx (p ∷ ps) w h =
      next_init-names (init_loop s ctx ps) p ps _ (init-field_name s.outside ctx p w)
        (init_loop-names ctx ps) h

  next_init-AreReady :
      (rest : W → W × List Provider × Option Error) (name : Text) (r : W × Provider × Option Error)
      → (r.2 ≡ none → is_ready r.1 ≡ true)
      → ((w : W) → (rest w).2 ≡ none → AreReady (rest w).1)
      → (next_init s rest name r).2 ≡ none
      → AreReady (next_init s rest name r).1
  unfolding next_init
  next_init-AreReady rest name (w, q, some e) ready h done = absurd (ground (arith, done))
  next_init-AreReady rest name (w, q, none) ready h done = (ready refl, h w done)

  pub init_loop-AreReady :
      (ctx : ℕ) (ps : List Provider) (w : W)
      → (init_loop s ctx ps w).2 ≡ none
      → AreReady (init_loop s ctx ps w).1
  unfolding init_loop
  init_loop-AreReady ctx [] w h = tt
  init_loop-AreReady ctx (p ∷ ps) w h =
      next_init-AreReady (init_loop s ctx ps) _ _ (init-is_ready s.outside ctx p w)
        (init_loop-AreReady ctx ps) h
