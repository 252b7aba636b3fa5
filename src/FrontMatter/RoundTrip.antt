-- ===== src/FrontMatter/RoundTrip.antt =====
-- What frontmatter.go takes for front matter and for the body.
use xtemplate.Prelude.{
  ℕ, suc, ◌+◌, ◌≡◌, refl, ◌∙◌, ap, arith, Option, none, some, Option-cases, List, [], ◌∷◌, ◌++◌,
  Text, codes, length, take, drop, append_assoc, length-append, take-append-drop,
  take-append_length, drop-append_length, inl, inr,
}
use xtemplate.Prelude.Errors.{Result, ok, err}
use xtemplate.Strings.{index, trim_space}
use xtemplate.FrontMatter.{
  Parsers, FrontMatterType, json_front_matter, supported, slice, first_line, first_line_end,
  find_type, find_fence, Extracted, failed, extracted, parsed, cut, extract_front_matter,
}

-- The three kinds of front matter, by what opens and closes them; the second closing fence of YAML
-- is not used here.
pub data Kind : Type 0 where
  yaml toml json : Kind

abbrev pub opening : Kind → Text
opening yaml = codes "---"
opening toml = codes "+++"
opening json = codes "{"

abbrev pub closing : Kind → Text
closing yaml = codes "---"
closing toml = codes "+++"
closing json = codes "}"

abbrev pub parser : Parsers → Kind → Text → Result ℕ
parser ps yaml s = ps.yaml s
parser ps toml s = ps.toml s
parser ps json s = ps.json (b'{' ∷ (s ++ b'}' ∷ []))

abbrev pub outcome : Result ℕ → Text → Extracted
outcome (err e) body = failed e
outcome (ok fm) body = extracted (some fm) body

-- A document: the opening fence, a newline, `m`, a newline, the closing fence, and the body.
abbrev pub document : Kind → Text → Text → Text
document k m body = opening k ++ 10 ∷ (m ++ 10 ∷ (closing k ++ body))

module _ (l m c body : Text) where
  head : Text
  head = l ++ 10 ∷ (m ++ 10 ∷ [])

  length-head : suc (length m) + (length l + 1) ≡ length head
  unfolding head
  length-head = omega (arith, length-append l (10 ∷ (m ++ 10 ∷ [])), length-append m (10 ∷ []))

  document-head : l ++ 10 ∷ (m ++ 10 ∷ (c ++ body)) ≡ head ++ (c ++ body)
  unfolding head
  document-head = simp append_assoc

  slice-document :
      slice (length l) (suc (length m) + (length l + 1)) (l ++ 10 ∷ (m ++ 10 ∷ (c ++ body)))
      ≡ 10 ∷ (m ++ 10 ∷ [])
  unfolding slice
  slice-document = rw document-head (
      ap (drop (length l))
        (take-append_length head (c ++ body) (suc (length m) + (length l + 1)) length-head)
      ∙ (unfold head in drop-append_length l (10 ∷ (m ++ 10 ∷ [])) (length l) refl))

  drop-document :
      drop ((suc (length m) + (length l + 1)) + length c) (l ++ 10 ∷ (m ++ 10 ∷ (c ++ body))) ≡ body
  drop-document = rw document-head (
      rw (← append_assoc head c body) (
        drop-append_length (head ++ c) body ((suc (length m) + (length l + 1)) + length c)
          (omega (arith, length-append head c, length-head))))

  find_fence-document :
      (more : List Text)
      → index (10 ∷ (m ++ 10 ∷ (c ++ body))) (10 ∷ c) ≡ some (suc (length m))
      → find_fence (drop (length l) (l ++ 10 ∷ (m ++ 10 ∷ (c ++ body)))) (c ∷ more)
        ≡ some (suc (length m), c)
  unfolding find_fence
  find_fence-document more h =
      let rest = 10 ∷ (m ++ 10 ∷ (c ++ body)) in
      ap (λ s. find_fence s (c ∷ more)) (drop-append_length l rest (length l) refl)
      ∙ rw (find_fence, h)

  cut-document :
      (open_ : Text) (more : List Text) (f : Text → Result ℕ)
      → index (10 ∷ (m ++ 10 ∷ (c ++ body))) (10 ∷ c) ≡ some (suc (length m))
      → cut
          (record { fence_open = open_; fence_close = c ∷ more; parse_func = f })
          (length l)
          (l ++ 10 ∷ (m ++ 10 ∷ (c ++ body)))
        ≡ parsed (f (10 ∷ (m ++ 10 ∷ []))) body
  unfolding cut
  cut-document open_ more f h =
      rw (cut, find_fence-document more h) (rw (slice-document, drop-document))

parsed-outcome : (r : Result ℕ) (body : Text) → parsed r body ≡ outcome r body
unfolding parsed
parsed-outcome (err e) body = refl
parsed-outcome (ok fm) body = refl

-- A document with front matter of any kind, whose closing fence first occurs behind `m`, is taken
-- apart at the fences: the parser is given `m` between newlines, its error is returned, and the
-- rest, from right behind the closing fence on, is the body.
pub extract-document :
    (ps : Parsers) (k : Kind) (m body : Text)
    → index (10 ∷ (m ++ 10 ∷ (closing k ++ body))) (10 ∷ closing k) ≡ some (suc (length m))
    → extract_front_matter ps (document k m body) ≡ outcome (parser ps k (10 ∷ (m ++ 10 ∷ []))) body
unfolding extract_front_matter json_front_matter trim_space
extract-document ps yaml m body h =
    cut-document (opening yaml) m (closing yaml) body (opening yaml) (codes "..." ∷ []) ps.yaml h
    ∙ parsed-outcome (parser ps yaml (10 ∷ (m ++ 10 ∷ []))) body
extract-document ps toml m body h =
    cut-document (opening toml) m (closing toml) body (opening toml) [] ps.toml h
    ∙ parsed-outcome (parser ps toml (10 ∷ (m ++ 10 ∷ []))) body
extract-document ps json m body h =
    cut-document (opening json) m (closing json) body (opening json) [] (json_front_matter ps) h
    ∙ parsed-outcome (parser ps json (10 ∷ (m ++ 10 ∷ []))) body

cut_from :
    (n : ℕ) (input body : Text) → drop n input ≡ body → (before : Text) × (before ++ body ≡ input)
cut_from n input body e = (take n input, rw (← e) (take-append-drop n input))

parsed_suffix :
    (r : Result ℕ) (n : ℕ) (input : Text) {body : Text} {fm : Option ℕ}
    → parsed r (drop n input) ≡ extracted fm body
    → drop n input ≡ body
unfolding parsed
parsed_suffix (err e) n input h = absurd (ground (arith, h))
parsed_suffix (ok v) n input h = ground (arith, h)

cut_suffix :
    (t : FrontMatterType) (line_end : ℕ) (input body : Text) (fm : Option ℕ)
    → cut t line_end input ≡ extracted fm body
    → (before : Text) × (before ++ body ≡ input)
unfolding cut
cut_suffix t line_end input body fm h =
    elim (Option-cases (find_fence (drop line_end input) t.fence_close)) [
      | inl missing ↦ absurd (ground (arith, rw (cut, missing) at h))
      | inr ((i, fence), found) ↦
          cut_from _ input body (parsed_suffix _ _ input (rw (cut, found) at h))
    ]

-- Whatever the document is, the body that is returned is the end of it; without front matter it is
-- the whole document.
extract_suffix :
    (ps : Parsers) (input body : Text) (fm : Option ℕ)
    → extract_front_matter ps input ≡ extracted fm body
    → (before : Text) × (before ++ body ≡ input)
unfolding extract_front_matter
extract_suffix ps input body fm h =
    elim (Option-cases (find_type (first_line input) (supported ps))) [
      | inl plain ↦
          let whole : extracted none input ≡ extracted fm body =
            rw (extract_front_matter, plain) at h in
          ([], ground (arith, whole))
      | inr (t, found) ↦
          cut_suffix t (first_line_end input) input body fm (rw (extract_front_matter, found) at h)
    ]
