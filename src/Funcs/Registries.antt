-- ===== src/Funcs/Registries.antt =====
-- The policies and markdown configurations that are added to those of funcs.go.
use xtemplate.Prelude.{
  ℕ, ◌≡◌, inl, inr, refl, sym, ◌∙◌, ap, arith, Bool-cases, none, some, Option-cases, List, [], ◌∷◌,
  ◌++◌, Option, if◌then◌else◌, Text, text_eq, text_eq_iff, text_eq_refl, codes,
}
use xtemplate.Prelude.Errors.{ok}
use xtemplate.Funcs.{
  Libraries, Registry, lookup, add_policy, add_markdown_config, html, func_sanitize_html,
  func_markdown, converted, markdown_with,
}
use xtemplate.Funcs.Tables.{
  add_next, add_all, Constructors, blue_monday_policies, markdown_configs, md_opts, unsafe_html,
}

added-lookup :
    (name : Text) (v : ℕ) (vs ws : Registry)
    → elim (lookup name vs) [ some old ↦ none | none ↦ some ((name, v) ∷ vs) ] ≡ some ws
    → (lookup name vs ≡ none) × (ws ≡ (name, v) ∷ vs)
added-lookup name v vs ws h = elim (Option-cases (lookup name vs)) [
  | inl free ↦ let added = rw free at h in (free, ground (arith, added))
  | inr (old, taken) ↦ let added = rw taken at h in absurd (ground (arith, added))
]

lookup-new : (name : Text) (v : ℕ) (vs : Registry) → lookup name ((name, v) ∷ vs) ≡ some v
unfolding lookup
lookup-new name v vs = rw (text_eq_refl name) refl

-- A name that is known keeps what it stands for.
lookup-kept :
    (name n : Text) (v u : ℕ) (vs : Registry)
    → lookup name vs ≡ none
    → lookup n vs ≡ some u
    → lookup n ((name, v) ∷ vs) ≡ some u
unfolding lookup
lookup-kept name n v u vs free known = elim (Bool-cases (text_eq name n)) [
  | inr other ↦ rw other known
  | inl same ↦
      let clash = sym (ap (λ t. lookup t vs) ((text_eq_iff name n).0 same)) ∙ free in
      absurd (ground (arith, sym clash ∙ known))
]

module _ {W : Type 0} (o : Libraries W) where
  sanitize-found :
      (vs : Registry) (name s : Text) (policy : ℕ)
      → lookup name vs ≡ some policy
      → func_sanitize_html o vs name s ≡ ok (html (o.sanitize policy s))
  unfolding func_sanitize_html
  sanitize-found vs name s policy found = rw (func_sanitize_html, found) refl

  markdown-found :
      (vs : Registry) (input name : Text) (md : ℕ)
      → lookup name vs ≡ some md
      → markdown_with o vs input name ≡ converted o (o.convert md input)
  unfolding markdown_with
  markdown-found vs input name md found = rw (markdown_with, found) refl

  markdown-same :
      (vs ws : Registry) (input name : Text) (md : ℕ)
      → lookup name ws ≡ some md
      → lookup name vs ≡ some md
      → markdown_with o ws input name ≡ markdown_with o vs input name
  markdown-same vs ws input name md new before =
      markdown-found ws input name md new ∙ sym (markdown-found vs input name md before)

-- A policy that is added is the one that `sanitizeHtml` then uses under its name, and every policy that
-- was there before is used as before: no name is ever given to another policy.
add_policy-kept :
    {W : Type 0} (o : Libraries W) (name : Text) (policy : ℕ) (vs ws : Registry) (s : Text)
    → add_policy name policy vs ≡ some ws
    → (func_sanitize_html o ws name s ≡ ok (html (o.sanitize policy s)))
      × ((n : Text) (old : ℕ)
          → lookup n vs ≡ some old
          → func_sanitize_html o ws n s ≡ func_sanitize_html o vs n s)
unfolding add_policy
add_policy-kept o name policy vs ws s added =
    let (free, is) = added-lookup name policy vs ws added in
    rw is (
      sanitize-found o ((name, policy) ∷ vs) name s policy (lookup-new name policy vs),
      λ n old known.
          sanitize-found o ((name, policy) ∷ vs) n s old
            (lookup-kept name n policy old vs free known)
          ∙ sym (sanitize-found o vs n s old known),
    )

-- The configuration that `markdown` uses.
abbrev selected : List Text → Text
selected [] = codes "default"
selected (name ∷ names) = name

-- A markdown configuration that is added changes nothing for the templates that use one that was there
-- before, named or by default.
add_markdown_config-kept :
    {W : Type 0} (o : Libraries W) (name input : Text) (md old : ℕ) (vs ws : Registry)
    (names : List Text)
    → add_markdown_config name md vs ≡ some ws
    → lookup (selected names) vs ≡ some old
    → func_markdown o ws input names ≡ func_markdown o vs input names
unfolding add_markdown_config func_markdown
add_markdown_config-kept o name input md old vs ws names added known =
    let (free, is) = added-lookup name md vs ws added in
    let kept = lookup-kept name (selected names) md old vs free known in rw is (go names kept known)
  where
    go :
        (names : List Text)
        → lookup (selected names) ((name, md) ∷ vs) ≡ some old
        → lookup (selected names) vs ≡ some old
        → func_markdown o ((name, md) ∷ vs) input names ≡ func_markdown o vs input names
    go [] new before = markdown-same o vs ((name, md) ∷ vs) input (codes "default") old new before
    go (n ∷ []) new before = markdown-same o vs ((name, md) ∷ vs) input n old new before
    go (n ∷ m ∷ more) new before = refl

abbrev pub first_of : Option ℕ → Option ℕ → Option ℕ
first_of none o = o
first_of (some v) o = some v

lookup-cons :
    (name n : Text) (v : ℕ) (vs : Registry) (o : Option ℕ)
    → lookup name vs ≡ none
    → first_of (lookup n ((name, v) ∷ vs)) o
      ≡ first_of (lookup n vs) (if text_eq name n then some v else o)
unfolding lookup
lookup-cons name n v vs o free = elim (Bool-cases (text_eq name n)) [
  | inr other ↦ rw other refl
  | inl same ↦
      let clash = sym (ap (λ t. lookup t vs) ((text_eq_iff name n).0 same)) ∙ free in
      rw (same, clash) refl
]

first_of-none : (o : Option ℕ) → first_of o none ≡ o
first_of-none none = refl
first_of-none (some v) = refl

-- A call that adds to a registry does what `added-lookup` reads off its result.
Adds : (Text → ℕ → Registry → Option Registry) → Type 0
Adds add =
    (name : Text) (v : ℕ) (vs ws : Registry)
    → add name v vs ≡ some ws
    → (lookup name vs ≡ none) × (ws ≡ (name, v) ∷ vs)

-- A registry after the calls: what it had before goes before what they added.
lookup-add_all :
    (add : Text → ℕ → Registry → Option Registry) (adds : Adds add) (n : Text)
    (calls : List (Text × ℕ)) (vs ws : Registry)
    → add_all add calls vs ≡ some ws
    → lookup n ws ≡ first_of (lookup n vs) (lookup n calls)
unfolding add_all add_next Adds lookup
lookup-add_all add adds n [] vs ws h =
    let same : vs ≡ ws = ground (arith, h) in rw (← same) (sym (first_of-none (lookup n vs)))
lookup-add_all add adds n ((name, v) ∷ calls) vs ws h = elim (Option-cases (add name v vs)) [
  | inl full ↦
      let panics = ap (add_next (add_all add calls)) (sym full) ∙ h in
      absurd (ground (arith, panics))
  | inr (us, added) ↦
      let (free, is) = adds name v vs us added in
      let rest = ap (add_next (add_all add calls)) (sym added) ∙ h in
      lookup-add_all add adds n calls us ws rest
      ∙ ap (λ t. first_of (lookup n t) (lookup n calls)) is
      ∙ lookup-cons name n v vs (lookup n calls) free
]

add_policy-Adds : Adds add_policy
unfolding Adds add_policy
add_policy-Adds name v vs ws h = added-lookup name v vs ws h

add_markdown_config-Adds : Adds add_markdown_config
unfolding Adds add_markdown_config
add_markdown_config-Adds name v vs ws h = added-lookup name v vs ws h

-- Whatever policies and markdown configurations a program adds, if no call panics: the policies
-- "strict", "ugc" and "externalugc" and the configurations "default" and "unsafe" stay what they are,
-- `markdown` without a name uses "default", and a policy of another name is the first one that was
-- added under this name.
pub builtins_kept :
    {W : Type 0} (o : Libraries W) (k : Constructors) (policies configs : List (Text × ℕ))
    (ps ms : Registry) (name s : Text)
    → add_all add_policy policies (blue_monday_policies k) ≡ some ps
    → add_all add_markdown_config configs (markdown_configs k) ≡ some ms
    → (func_sanitize_html o ps (codes "strict") s ≡ ok (html (o.sanitize k.strict_policy s)))
      × (func_sanitize_html o ps (codes "ugc") s ≡ ok (html (o.sanitize k.ugc_policy s)))
      × (func_markdown o ms s [] ≡ converted o (o.convert (k.new_markdown md_opts) s))
      × (func_markdown o ms s (codes "unsafe" ∷ [])
          ≡ converted o (o.convert (k.new_markdown (md_opts ++ unsafe_html ∷ [])) s))
      × (lookup name ps ≡ first_of (lookup name (blue_monday_policies k)) (lookup name policies))
unfolding func_markdown blue_monday_policies markdown_configs lookup
builtins_kept o k policies configs ps ms name s hp hm =
    let policy = λ (n : Text). lookup-add_all add_policy add_policy-Adds n policies _ ps hp in
    let config =
      λ (n : Text). lookup-add_all add_markdown_config add_markdown_config-Adds n configs _ ms hm in
    (
      sanitize-found o ps (codes "strict") s _ (policy (codes "strict")),
      sanitize-found o ps (codes "ugc") s _ (policy (codes "ugc")),
      markdown-found o ms s (codes "default") _ (config (codes "default")),
      markdown-found o ms s (codes "unsafe") _ (config (codes "unsafe")),
      policy name,
    )
