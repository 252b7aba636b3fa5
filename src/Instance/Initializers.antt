-- ===== src/Instance/Initializers.antt =====
-- The initialization templates that `Config.Instance` runs.
use xtemplate.Prelude.{
  ℕ, ◌+◌, ◌≡◌, ◌∙◌, ap, arith, Bool, Bool-cases, inl, inr, Option, none, some, Option-cases, List,
  [], ◌∷◌, Text, if◌then◌else◌,
}
use xtemplate.Prelude.Errors.{Error}
use xtemplate.Strings.{has_prefix}
use xtemplate.Dot.{Dot, Pooled}
use xtemplate.Handlers.{World, Value}
use xtemplate.Instance.{Surroundings, init_prefix, next_template, init_templates}

abbrev pub count : (Text × ℕ → Bool) → List (Text × ℕ) → ℕ
count p [] = 0
count p (t ∷ ts) = (if p t then 1 else 0) + count p ts

-- The entries of a map in some order: each is met as often as it is there, and no others are.
abbrev pub IsListing : (List (Text × ℕ) → List (Text × ℕ)) → Type 0
IsListing order = (p : Text × ℕ → Bool) (m : List (Text × ℕ)) → count p (order m) ≡ count p m

-- How many templates have a name that starts with "INIT ".
abbrev pub initializers : List (Text × ℕ) → ℕ
initializers ts = count (λ t. has_prefix t.0 init_prefix) ts

module _ {W : Type 0} (s : Surroundings W) where
  next_template-count :
      (rest : Pooled World → Option (Pooled World × ℕ × Option Error)) (m : ℕ)
      (r : Option (Pooled World × Option Error)) (q : Pooled World) (n : ℕ)
      → ((p u : Pooled World) (k : ℕ) → rest p ≡ some (u, k, none) → k ≡ m)
      → next_template s rest r ≡ some (q, n, none)
      → n ≡ 1 + m
  unfolding next_template
  next_template-count rest m none q n h done = absurd (ground (arith, done))
  next_template-count rest m (some (p, some e)) q n h done = absurd (ground (arith, done))
  next_template-count rest m (some (p, none)) q n h done = elim (Option-cases (rest p)) [
    | inl panics ↦ let done = rw (next_template, panics) at done in absurd (ground (arith, done))
    | inr ((u, k, e), ran) ↦
        let done = rw (next_template, ran) at done in
        let gone : e ≡ none = ground (arith, done) in
        let same = h p u k (ran ∙ ap (λ f. some (u, k, f)) gone) in ground (arith, done, same)
  ]

  pub init_templates-count :
      (d : Dot World Value) (ts : List (Text × ℕ)) (p q : Pooled World) (n : ℕ)
      → init_templates s d ts p ≡ some (q, n, none)
      → n ≡ initializers ts
  unfolding init_templates
  init_templates-count d [] p q n h = ground (arith, h)
  init_templates-count d ((name, tmpl) ∷ ts) p q n h =
      elim (Bool-cases (has_prefix name init_prefix)) [
        | inl runs ↦
            let h = rw (init_templates, runs) at h in
            rw runs (
              next_template-count (init_templates s d ts) (initializers ts) _ q n
                (λ p u k. init_templates-count d ts p u k) h)
        | inr other ↦
            let h = rw (init_templates, other) at h in
            rw other (omega (arith, init_templates-count d ts p q n h))
      ]
