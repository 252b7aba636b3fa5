-- ===== src/Routes/Laws.antt =====
-- What the names of templates mean.
use xtemplate.Prelude.{
  ℕ, ◌≡◌, ◌≢◌, refl, sym, ◌∙◌, ap, arith, false, ◌⊎◌, inl, inr, Bool-cases, Option, none, some,
  Option-cases, List, [], ◌∷◌, ◌++◌, append_assoc, Text, codes, text_eq, text_eq_iff, any, ◌==◌,
}
use xtemplate.Strings.{strip_prefix}
use xtemplate.Routes.{
  Handler, buffering, flushing, one_line, after_method, methods, match_route, method_route,
  template_route,
}

strip_prefix-append : (p s : Text) {r : Text} → strip_prefix p s ≡ some r → s ≡ p ++ r
unfolding strip_prefix
strip_prefix-append [] s h = ground (arith, h)
strip_prefix-append (c ∷ p) [] h = absurd (ground (arith, h))
strip_prefix-append (c ∷ p) (d ∷ s) {r} h = elim (Bool-cases (c == d)) [
  | inl same ↦
      let rest = strip_prefix-append p s (rw (strip_prefix, same) at h) in
      let eq : d ≡ c = ground (arith, same) in ap (λ t. d ∷ t) rest ∙ ap (λ x. x ∷ (p ++ r)) eq
  | inr other ↦ absurd (ground (arith, rw (strip_prefix, other) at h))
]

after_method-append :
    (m name : Text) {r : Text} → after_method m name ≡ some r → name ≡ m ++ (codes " " ++ r)
unfolding after_method one_line
after_method-append m name {r} h = elim (Option-cases (strip_prefix (m ++ codes " ") name)) [
  | inl missing ↦ absurd (ground (arith, rw (after_method, missing) at h))
  | inr (rest, found) ↦ elim (Bool-cases (any (λ c. c == 10) rest)) [
    | inl broken ↦ absurd (ground (arith, rw (after_method, found) at h, broken))
    | inr line ↦
        let same : rest ≡ r = ground (arith, rw (after_method, found) at h, line) in
        strip_prefix-append (m ++ codes " ") name found
        ∙ append_assoc m (codes " ") rest
        ∙ ap (λ t. m ++ (codes " " ++ t)) same
  ]
]

match_route-append :
    (ms : List Text) (name : Text) {m r : Text}
    → match_route ms name ≡ some (m, r)
    → name ≡ m ++ (codes " " ++ r)
unfolding match_route
match_route-append [] name h = absurd (ground (arith, h))
match_route-append (n ∷ ms) name {m} {r} h = elim (Option-cases (after_method n name)) [
  | inl missing ↦ match_route-append ms name (rw (match_route, missing) at h)
  | inr (rest, found) ↦
      let here : some (n, rest) ≡ some (m, r) = rw (match_route, found) at h in
      after_method-append n name found
      ∙ ap (λ (mr : Text × Text). mr.0 ++ (codes " " ++ mr.1)) (ground (arith, here))
]

-- No other method is matched by a name that begins with "SSE ".
match_route-sse :
    (name : Text) {m r : Text}
    → match_route methods name ≡ some (m, r)
    → text_eq m (codes "SSE") ≡ false
    → strip_prefix (codes "SSE ") name ≡ none
unfolding match_route methods after_method one_line strip_prefix text_eq
match_route-sse name {m} {r} h differs = elim (Option-cases (strip_prefix (codes "SSE ") name)) [
  | inl missing ↦ missing
  | inr (rest, found) ↦
      let is = strip_prefix-append (codes "SSE ") name found in
      let route : match_route methods (codes "SSE " ++ rest) ≡ some (m, r) =
        ap (match_route methods) (sym is) ∙ h in
      elim (Bool-cases (any (λ c. c == 10) rest)) [
        | inl broken ↦ absurd (ground (arith, route, broken))
        | inr line ↦
            let here : some (codes "SSE", rest) ≡ some (m, r) = rw (match_route, line) at route in
            let same : codes "SSE" ≡ m = ground (arith, here) in
            absurd (ground (arith, differs, ap (λ t. text_eq t (codes "SSE")) same))
      ]
]

-- How a route by name reads the name.
abbrev pub NamedRoute : ℕ → Text → Text → Handler → Type 0
NamedRoute tmpl name pattern handler =
    ((handler ≡ buffering tmpl) × (pattern ≡ name) × (strip_prefix (codes "SSE ") name ≡ none))
    ⊎ ((handler ≡ flushing tmpl)
        × ((rest : Text) × (name ≡ codes "SSE " ++ rest) × (pattern ≡ codes "GET " ++ rest)))

method_route-NamedRoute :
    (tmpl : ℕ) (name : Text) (o : Option (Text × Text)) {pattern : Text} {handler : Handler}
    → ((m r : Text) → o ≡ some (m, r) → name ≡ m ++ (codes " " ++ r))
    → ((m r : Text)
        → o ≡ some (m, r)
        → text_eq m (codes "SSE") ≡ false
        → strip_prefix (codes "SSE ") name ≡ none)
    → method_route tmpl o ≡ some (pattern, handler)
    → NamedRoute tmpl name pattern handler
unfolding method_route
method_route-NamedRoute tmpl name none parts others e = absurd (ground (arith, e))
method_route-NamedRoute tmpl name (some (m, r)) {pattern} {handler} parts others e =
    elim (Bool-cases (text_eq m (codes "SSE"))) [
      | inl sse ↦
          let route : some (codes "GET " ++ r, flushing tmpl) ≡ some (pattern, handler) =
            rw (method_route, sse) at e in
          inr (
            ground (arith, route),
            (
              r,
              parts m r refl
                  ∙ ap (λ t. t ++ (codes " " ++ r)) ((text_eq_iff m (codes "SSE")).0 sse),
              ground (arith, route),
            ),
          )
      | inr plain ↦
          let route : some (m ++ (codes " " ++ r), buffering tmpl) ≡ some (pattern, handler) =
            rw (method_route, plain) at e in
          let same : m ++ (codes " " ++ r) ≡ pattern = ground (arith, route) in
          inl (ground (arith, route), sym same ∙ sym (parts m r refl), others m r refl plain)
    ]

-- A template whose name is not that of its file and that has a route gets its own name as the pattern
-- and answers buffered, if its name does not begin with "SSE "; else it gets the pattern of a GET request
-- for the rest of the name and answers by flushing.
pub route_of_name :
    (extension path name : Text) (tmpl : ℕ) {pattern : Text} {handler : Handler}
    → name ≢ path
    → template_route extension path name tmpl ≡ some (pattern, handler)
    → NamedRoute tmpl name pattern handler
unfolding template_route
route_of_name extension path name tmpl differ h = elim (Bool-cases (text_eq name path)) [
  | inl same ↦ absurd (differ ((text_eq_iff name path).0 same))
  | inr other ↦
      method_route-NamedRoute tmpl name (match_route methods name)
        (λ m r e. match_route-append methods name e) (λ m r e. match_route-sse name e)
        (rw (template_route, other) at h)
]
