-- ===== src/Funcs/Humanize.antt =====
-- `FuncHumanize`: which sizes it accepts, and which layout a time is parsed with.
use xtemplate.Prelude.{
  ℕ, ◌+◌, ◌-◌, ◌*◌, ◌%◌, ◌≤◌, ◌<◌, ◌≡◌, ◌≢◌, ◌↔◌, refl, ◌∙◌, ap, arith, Bool, true, false, ◌||◌,
  ◌||◌, inl, inr, Bool-cases, List, [], ◌∷◌, ◌++◌, Text, codes, text_eq, ltb, leb, ◌==◌, all,
  if◌then◌else◌,
}
use xtemplate.Prelude.Errors.{Error, ok, err, errorf, text}
use xtemplate.Strings.{split}
use xtemplate.Funcs.{
  Libraries, Parsed, number, refused, out_of_range, invalid_syntax, out_of_range, invalid_syntax,
  word, cutoff, is_digit, parse_digits, parse_uint, func_humanize, humanize_parts, sized, timed,
  time_layout,
}

-- The number that decimal digits stand for, after those of `n`.
abbrev pub decimal : ℕ → Text → ℕ
decimal n [] = n
decimal n (c ∷ s) = decimal (n * 10 + (c - b'0')) s

decimal-grows : (n : ℕ) (s : Text) → n ≤ decimal n s
decimal-grows n [] = omega arith
decimal-grows n (c ∷ s) = omega (arith, decimal-grows (n * 10 + (c - b'0')) s)

is_digit-bound : (c : ℕ) → is_digit c ≡ true → c - b'0' ≤ 9
unfolding is_digit
is_digit-bound c h = ground (arith, h)

-- A digit more: the tests of the loop refuse it exactly if the number would not fit.
overflow_tests :
    (n d : ℕ)
    → n < word
    → d ≤ 9
    → (leb cutoff n || ltb ((n * 10 + d) % word) (n * 10)) ≡ leb word (n * 10 + d)
overflow_tests n d fits small = ground (arith, fits, small)

two_tests :
    {A : Type 0} (a b : Bool) (x y : A)
    → (if a then x else if b then x else y) ≡ (if a || b then x else y)
two_tests true b x y = refl
two_tests false b x y = refl

parse_digits-tests :
    (n c : ℕ) (s : Text)
    → is_digit c ≡ true
    → parse_digits n (c ∷ s) ≡ (
        if leb cutoff n || ltb ((n * 10 + (c - b'0')) % word) (n * 10)
        then refused out_of_range
        else parse_digits ((n * 10 + (c - b'0')) % word) s)
unfolding parse_digits
parse_digits-tests n c s digit = rw digit (two_tests (leb cutoff n) _ _ _)

parse_digits-step :
    (n c : ℕ) (s : Text)
    → n < word
    → is_digit c ≡ true
    → parse_digits n (c ∷ s) ≡ (
        if leb word (n * 10 + (c - b'0'))
        then refused out_of_range
        else parse_digits (n * 10 + (c - b'0')) s)
parse_digits-step n c s fits digit =
    let m = n * 10 + (c - b'0') in
    let tests = overflow_tests n (c - b'0') fits (is_digit-bound c digit) in
    let tested =
      parse_digits-tests n c s digit
      ∙ ap (λ b. if b then refused out_of_range else parse_digits (m % word) s) tests in
    elim (Bool-cases (leb word m)) [
      | inl large ↦ tested ∙ rw large refl
      | inr small ↦ let same : m % word ≡ m = ground (arith, small) in tested ∙ rw same refl
    ]

parse_digits-refused :
    (n c : ℕ) (s : Text) → is_digit c ≡ false → parse_digits n (c ∷ s) ≡ refused invalid_syntax
unfolding parse_digits
parse_digits-refused n c s other = rw other refl

parse_digits_nil_iff :
    (n m : ℕ) → n < word → (parse_digits n [] ≡ number m) ↔ ((true ≡ true) × (n < word) × (m ≡ n))
unfolding parse_digits
parse_digits_nil_iff n m fits = ground (arith, fits)

parse_digits_iff :
    (n m : ℕ) (s : Text)
    → n < word
    → (parse_digits n s ≡ number m)
      ↔ ((all is_digit s ≡ true) × (decimal n s < word) × (m ≡ decimal n s))
parse_digits_iff n m [] fits = parse_digits_nil_iff n m fits
parse_digits_iff n m (c ∷ s) fits = elim (Bool-cases (is_digit c)) [
  | inr other ↦
      rw (parse_digits-refused n c s other)
        ((λ e. absurd (ground (arith, e))), λ h. absurd (ground (arith, h, other)))
  | inl digit ↦
      let v = n * 10 + (c - b'0') in
      elim (Bool-cases (leb word v)) [
        | inl large ↦
            let refused_ =
              parse_digits-step n c s fits digit
              ∙ ap (λ b. if b then refused out_of_range else parse_digits v s) large in
            rw refused_ (
              (λ e. absurd (ground (arith, e))),
              λ h. absurd (ground (arith, h, large, decimal-grows v s)),
            )
        | inr small ↦
            let step =
              parse_digits-step n c s fits digit
              ∙ ap (λ b. if b then refused out_of_range else parse_digits v s) small in
            rw (step, digit) (parse_digits_iff v m s (ground (arith, small)))
      ]
]

parse_uint_iff :
    (m : ℕ) (s : Text)
    → (parse_uint s ≡ number m)
      ↔ ((s ≢ []) × (all is_digit s ≡ true) × (decimal 0 s < word) × (m ≡ decimal 0 s))
unfolding parse_uint
parse_uint_iff m [] = ((λ e. absurd (ground (arith, e))), λ h. absurd (h.0 refl))
parse_uint_iff m (c ∷ s) =
    let (to, from) = parse_digits_iff 0 m (c ∷ s) (omega arith) in
    (
      (λ e.
          let (digits, fits, value) = to e in
          ((λ f. absurd (ground (arith, f))), digits, fits, value)),
      λ (some_, digits, fits, value). from (digits, fits, value),
    )

-- `strings.Split` returns at least one part.
split-some : (sep : ℕ) (s : Text) → (p : Text) × (ps : List Text) × (split sep s ≡ p ∷ ps)
unfolding split
split-some sep [] = ([], [], refl)
split-some sep (c ∷ s) =
    let (p, ps, splits) = split-some sep s in
    elim (Bool-cases (c == sep)) [
      | inl same ↦ ([], split sep s, rw same refl)
      | inr other ↦ (c ∷ p, ps, rw other (rw splits refl))
    ]

module _ {W : Type 0} (o : Libraries W) where
  sized_iff :
      (data_ t : Text) (p : Parsed)
      → (sized o data_ p ≡ ok t) ↔ ((n : ℕ) × (p ≡ number n) × (t ≡ o.bytes n))
  unfolding sized
  sized_iff data_ t (refused e) =
      ((λ h. absurd (ground (arith, h))), λ (n, h, same). absurd (ground (arith, h)))
  sized_iff data_ t (number n) =
      ((λ h. (n, refl, ground (arith, h))), λ (m, e, same). ground (arith, e, same))

  -- For a format type "size", with or without arguments after a colon, the data is accepted exactly if
  -- it is one or more decimal digits whose number is below 2^64, and this number is then formatted: no
  -- wrap-around ever passes for a size.
  pub humanize_size :
      (format_type data_ t : Text) (parts : List Text)
      → split b':' format_type ≡ codes "size" ∷ parts
      → (func_humanize o format_type data_ ≡ ok t) ↔ (
          (data_ ≢ [])
          × (all is_digit data_ ≡ true)
          × (decimal 0 data_ < word)
          × (t ≡ o.bytes (decimal 0 data_)))
  unfolding func_humanize humanize_parts
  humanize_size format_type data_ t parts split_ =
      let (sized_to, sized_from) = sized_iff data_ t (parse_uint data_) in
      rw split_ (
        (λ h.
            let (n, read, same) = sized_to h in
            let (some_, digits, fits, value) = (parse_uint_iff n data_).0 read in
            (some_, digits, fits, same ∙ ap o.bytes value)),
        λ (some_, digits, fits, same). sized_from (
          decimal 0 data_,
          (parse_uint_iff (decimal 0 data_) data_).1 (some_, digits, fits, refl),
          same,
        ),
      )

  time_layout-colon :
      (layout : Text)
      → time_layout o (codes "time:" ++ layout) (codes "time") (split b':' layout) ≡ layout
  unfolding time_layout
  time_layout-colon layout = let (p, ps, splits) = split-some b':' layout in rw splits refl

  -- What follows the first colon of a format type "time:…" is the layout as it stands, colons included.
  humanize_time :
      (layout data_ : Text)
      → ((t : ℕ)
          → o.parse_time layout data_ ≡ ok t
          → func_humanize o (codes "time:" ++ layout) data_ ≡ ok (o.relative_time t))
        × ((e : Error)
            → o.parse_time layout data_ ≡ err e
            → func_humanize o (codes "time:" ++ layout) data_
              ≡ err (errorf "humanize: time cannot be parsed: %s" (text (o.message e) ∷ [])))
  unfolding func_humanize humanize_parts split time_layout timed text_eq
  humanize_time layout data_ =
      let same = time_layout-colon layout in
      ((λ t h. rw same (rw h refl)), λ e h. rw same (rw h refl))
