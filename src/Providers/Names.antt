-- ===== src/Providers/Names.antt =====
-- The check of instance.go that no two configured providers have the same field name.
use xtemplate.Prelude.{
  ℕ, ◌+◌, ◌≤◌, ◌<◌, ◌≡◌, refl, sym, ◌∙◌, ap, arith, Bool, true, false, ◌&&◌, inl, inr, Bool-cases,
  none, some, List, [], ◌∷◌, Text, text_eq, text_eq_iff, text_eq_refl, ltb, ltb→lt, ◌==◌, any,
  if◌then◌else◌,
}
use xtemplate.Prelude.Errors.{errorf, text, int}
use xtemplate.Providers.Fields.{add_name, count_names, check_names}

-- How often a name occurs.
abbrev pub uses : Text → List Text → ℕ
uses name [] = 0
uses name (n ∷ ns) = (if text_eq n name then 1 else 0) + uses name ns

-- The entry of a name in the map of counts; 0 if it has none.
count_of : Text → List (Text × ℕ) → ℕ
count_of name [] = 0
count_of name ((n, k) ∷ m) = let rest = count_of name m in if text_eq n name then k else rest

abbrev IsMap : List (Text × ℕ) → Type 0
IsMap [] = Unit
IsMap ((n, k) ∷ m) = (count_of n m ≡ 0) × IsMap m

count_of-add_name :
    (x y : Text) (m : List (Text × ℕ))
    → count_of y (add_name x m) ≡ (if text_eq x y then 1 else 0) + count_of y m
unfolding count_of add_name
count_of-add_name x y [] = ground arith
count_of-add_name x y ((n, k) ∷ m) = ground (
  arith,
  count_of-add_name x y m,
  text_eq_iff n x,
  text_eq_iff n y,
  text_eq_iff x y,
  text_eq_refl n,
)

add_name-IsMap : (x : Text) (m : List (Text × ℕ)) → IsMap m → IsMap (add_name x m)
unfolding count_of add_name
add_name-IsMap x [] h = (refl, tt)
add_name-IsMap x ((n, k) ∷ m) (new, h) = elim (Bool-cases (text_eq n x)) [
  | inl same ↦ rw (add_name, same) (new, h)
  | inr other ↦
      rw (add_name, other)
        (
          ground (arith, count_of-add_name x n m, text_eq_iff x n, text_eq_iff n x, other, new),
          add_name-IsMap x m h,
        )
]

count_of-count_names :
    (y : Text) (ns : List Text) (m : List (Text × ℕ))
    → count_of y (count_names ns m) ≡ uses y ns + count_of y m
unfolding count_names
count_of-count_names y [] m = omega arith
count_of-count_names y (n ∷ ns) m =
    omega (arith, count_of-count_names y ns (add_name n m), count_of-add_name n y m)

count_names-IsMap : (ns : List Text) (m : List (Text × ℕ)) → IsMap m → IsMap (count_names ns m)
unfolding count_names
count_names-IsMap [] m h = h
count_names-IsMap (n ∷ ns) m h = count_names-IsMap ns (add_name n m) (add_name-IsMap n m h)

-- An entry of a map is the entry of its name.
count_of-entry :
    (name : Text) (k : ℕ) (m : List (Text × ℕ))
    → IsMap m
    → 0 < k
    → any (λ (e : Text × ℕ). text_eq e.0 name && e.1 == k) m ≡ true
    → count_of name m ≡ k
unfolding count_of
count_of-entry name k [] h pos found = absurd (ground (arith, found))
count_of-entry name k ((n, j) ∷ m) (new, h) pos found = elim (Bool-cases (text_eq n name)) [
  | inl same ↦
      let is : n ≡ name = (text_eq_iff n name).0 same in
      let gone : count_of name m ≡ 0 = sym (ap (λ t. count_of t m) is) ∙ new in
      ground (arith, found, same, gone, count_of-entry name k m h pos)
  | inr other ↦ ground (arith, found, other, count_of-entry name k m h pos)
]

any-count_of :
    (name : Text) (m : List (Text × ℕ))
    → 1 < count_of name m
    → any (λ (e : Text × ℕ). ltb 1 e.1) m ≡ true
unfolding count_of
any-count_of name [] h = absurd (omega arith)
any-count_of name ((n, k) ∷ m) h = ground (arith, h, any-count_of name m)

-- The check reports an entry whose count is more than one, if there is one.
check_names-reports :
    (m : List (Text × ℕ))
    → any (λ (e : Text × ℕ). ltb 1 e.1) m ≡ true
    → (name : Text) × (k : ℕ) × (1 < k)
      × (any (λ (e : Text × ℕ). text_eq e.0 name && e.1 == k) m ≡ true)
      × (check_names m
          ≡ some (errorf "dot field name '%s' is used %d times" (text name ∷ int k ∷ [])))
unfolding check_names
check_names-reports [] h = absurd (ground (arith, h))
check_names-reports ((n, k) ∷ m) h = elim (Bool-cases (ltb 1 k)) [
  | inl many ↦
      (n, k, ground (arith, many), ground (arith, text_eq_refl n), rw (check_names, many) refl)
  | inr once ↦
      let (name, j, more, found, reported) = check_names-reports m (ground (arith, h, once)) in
      (name, j, more, ground (arith, found), rw (check_names, once) reported)
]

check_names-passes :
    (m : List (Text × ℕ)) → check_names m ≡ none → any (λ (e : Text × ℕ). ltb 1 e.1) m ≡ false
unfolding check_names
check_names-passes [] h = refl
check_names-passes ((n, k) ∷ m) h = elim (Bool-cases (ltb 1 k)) [
  | inl many ↦ absurd (ground (arith, rw (check_names, many) at h))
  | inr once ↦ ground (arith, once, check_names-passes m (rw (check_names, once) at h))
]

check_names-clean :
    (m : List (Text × ℕ)) → any (λ (e : Text × ℕ). ltb 1 e.1) m ≡ false → check_names m ≡ none
unfolding check_names
check_names-clean [] h = refl
check_names-clean ((n, k) ∷ m) h = ground (arith, h, check_names-clean m)

-- Going through a map in some order meets its entries and no others.
abbrev pub IsOrder : (List (Text × ℕ) → List (Text × ℕ)) → Type 0
IsOrder order = (p : Text × ℕ → Bool) (m : List (Text × ℕ)) → any p (order m) ≡ any p m

module _ (order : List (Text × ℕ) → List (Text × ℕ)) (ordered : IsOrder order)
    (ns : List Text) where
  pub check_names-clash :
      (name : Text)
      → 1 < uses name ns
      → (n : Text) × (1 < uses n ns)
        × (check_names (order (count_names ns []))
            ≡ some (errorf "dot field name '%s' is used %d times" (text n ∷ int (uses n ns) ∷ [])))
  unfolding count_of
  check_names-clash name h =
      let m = count_names ns [] in
      let many = any-count_of name m (omega (arith, count_of-count_names name ns [])) in
      let (n, k, more, found, reported) = check_names-reports (order m) (ordered _ m ∙ many) in
      let counted =
        count_of-entry n k m (count_names-IsMap ns [] tt) (omega arith)
          (sym (ordered _ m) ∙ found) in
      let same : uses n ns ≡ k = omega (arith, counted, count_of-count_names n ns []) in
      (n, omega arith, rw same reported)

  pub check_names-distinct :
      check_names (order (count_names ns [])) ≡ none → (name : Text) → uses name ns ≤ 1
  unfolding count_of
  check_names-distinct h name = elim (Bool-cases (ltb 1 (uses name ns))) [
    | inr once ↦ ground (arith, once)
    | inl many ↦
        let m = count_names ns [] in
        let clash =
          any-count_of name m (omega (arith, count_of-count_names name ns [], ltb→lt _ _ many)) in
        cc (sym clash ∙ sym (ordered _ m) ∙ check_names-passes (order m) h)
  ]

  pub check_names-none :
      ((name : Text) → uses name ns ≤ 1) → check_names (order (count_names ns [])) ≡ none
  unfolding count_of
  check_names-none distinct =
      let m = count_names ns [] in
      elim (Bool-cases (any (λ (e : Text × ℕ). ltb 1 e.1) (order m))) [
        | inr clean ↦ check_names-clean (order m) clean
        | inl many ↦
            let (n, k, more, found, reported) = check_names-reports (order m) many in
            let counted =
              count_of-entry n k m (count_names-IsMap ns [] tt) (omega arith)
                (sym (ordered _ m) ∙ found) in
            absurd (omega (arith, counted, count_of-count_names n ns [], distinct n, more))
      ]
