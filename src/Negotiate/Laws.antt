-- ===== src/Negotiate/Laws.antt =====
-- What `negiotiateEncoding` of handlers.go answers.
use xtemplate.Prelude.{
  ℕ, ◌<◌, ◌≡◌, refl, sym, ◌∙◌, ap, Bool, true, false, ◌⊎◌, inl, inr, Option, none, some, List, [],
  ◌∷◌, Text, text_eq, text_eq_iff, text_eq_refl, if◌then◌else◌, ltb, length, get_elem?, arith, any,
  All, Option-cases,
}
use xtemplate.Prelude.Errors.{Error, errorf}
use xtemplate.Negotiate.{
  EncodingInfo, chosen, identity, index_of, coding, q_value, prefers, negotiate_encoding,
  start_index,
}
use xtemplate.Negotiate.Loops.{
  items, index_of-lt, index_of_lem, weigh_all, weigh_all-single, headers_loop-items,
  weigh_all-index,
}
use xtemplate.Negotiate.Floats.{Float64, IsStandard}

-- The error that comes with a choice: none exactly if one of the encodings is "identity".
abbrev pub missing_identity : List EncodingInfo → Option Error
missing_identity es =
    if any (λ e. text_eq e.encoding identity) es
    then none
    else some (errorf "identity encoding missing" [])

abbrev pub mentions : List Text → Text → Bool
mentions ts name = any (λ t. text_eq (coding t) name) ts

any_of_found :
    (es : List EncodingInfo) (name : Text) {i : ℕ}
    → index_of name es ≡ some i
    → any (λ e. text_eq e.encoding name) es ≡ true
unfolding index_of
any_of_found [] name h = cc
any_of_found (e ∷ es) name {i} h = elim (Option-cases (index_of name es)) [
  | inl missing ↦ ground (arith, missing)
  | inr (j, found) ↦ ground (arith, any_of_found es name found)
]

pub any_of_missing :
    (es : List EncodingInfo) (name : Text)
    → index_of name es ≡ none
    → any (λ e. text_eq e.encoding name) es ≡ false
unfolding index_of
any_of_missing [] name h = refl
any_of_missing (e ∷ es) name h = elim (Option-cases (index_of name es)) [
  | inl missing ↦ ground (arith, any_of_missing es name missing)
  | inr (j, found) ↦ absurd (ground (arith, found))
]

flagged : Bool → Option Error
flagged b = if b then none else some (errorf "identity encoding missing" [])

found-missing_identity :
    (es : List EncodingInfo) {i : ℕ} → index_of identity es ≡ some i → missing_identity es ≡ none
unfolding flagged
found-missing_identity es h = ap flagged (any_of_found es identity h)

missing-missing_identity :
    (es : List EncodingInfo)
    → index_of identity es ≡ none
    → missing_identity es ≡ some (errorf "identity encoding missing" [])
unfolding flagged
missing-missing_identity es h = ap flagged (any_of_missing es identity h)

-- Where a file has two encodings or more, the answer is the result of the loop over the items.
negotiate-items :
    (f : Float64) (headers : List Text) (es : List EncodingInfo)
    → 1 < length es
    → negotiate_encoding f headers es
      ≡ chosen
          (weigh_all f es (f.zero, (start_index es (index_of identity es)).0) (items headers)).1
          (start_index es (index_of identity es)).1
unfolding negotiate_encoding
negotiate-items f headers [] h = elim h [ ]
negotiate-items f headers (a ∷ []) h = absurd (omega arith)
negotiate-items f headers (a ∷ b ∷ es) h =
    ap
      (λ (best : f.F × ℕ).
        chosen best.1 (start_index (a ∷ b ∷ es) (index_of identity (a ∷ b ∷ es))).1)
      (headers_loop-items f (a ∷ b ∷ es) _ headers)

negotiate-items_found :
    (f : Float64) (headers : List Text) (es : List EncodingInfo) {j : ℕ}
    → 1 < length es
    → index_of identity es ≡ some j
    → negotiate_encoding f headers es ≡ chosen (weigh_all f es (f.zero, j) (items headers)).1 none
unfolding start_index
negotiate-items_found f headers es h e = rw (negotiate-items f headers es h) (rw e)

start_index_fits :
    (es : List EncodingInfo)
    → 0 < length es
    → ((start_index es (index_of identity es)).0 < length es)
      × ((start_index es (index_of identity es)).1 ≡ missing_identity es)
unfolding start_index
start_index_fits es h = elim (Option-cases (index_of identity es)) [
  | inl missing ↦ rw missing (omega arith, sym (missing-missing_identity es missing))
  | inr (i, found) ↦ rw found (index_of-lt identity es found, sym (found-missing_identity es found))
]

-- The index of the loop is one of the file's encodings, if the first index is.
weigh_all-lt :
    (f : Float64) (es : List EncodingInfo) (ts : List Text) (best : f.F × ℕ)
    → best.1 < length es
    → (weigh_all f es best ts).1 < length es
weigh_all-lt f es ts best h = weigh_all-index f es (λ i. i < length es) ts best h (each ts)
  where
    each :
        (us : List Text) → All (λ t. (i : ℕ) → index_of (coding t) es ≡ some i → i < length es) us
    each [] = tt
    each (u ∷ us) = (λ i found. index_of-lt (coding u) es found, each us)

-- A file with at least one encoding is always given one of them, whatever the headers are and
-- whatever the floating-point operations return; the error beside it is nil exactly if one of the
-- file's encodings is "identity".
pub negotiate_total :
    (f : Float64) (headers : List Text) (es : List EncodingInfo)
    → 0 < length es
    → (i : ℕ) × (negotiate_encoding f headers es ≡ chosen i (missing_identity es)) × (i < length es)
unfolding negotiate_encoding
negotiate_total f headers [] h = elim h [ ]
negotiate_total f headers (e ∷ []) h = (0, ground arith, omega arith)
negotiate_total f headers (a ∷ b ∷ es) h =
    let (at, flag) = start_index_fits (a ∷ b ∷ es) (omega arith) in
    let start : f.F × ℕ = (f.zero, (start_index (a ∷ b ∷ es) (index_of identity (a ∷ b ∷ es))).0) in
    (
      (weigh_all f (a ∷ b ∷ es) start (items headers)).1,
      negotiate-items f headers (a ∷ b ∷ es) (omega arith)
          ∙ ap (chosen (weigh_all f (a ∷ b ∷ es) start (items headers)).1) flag,
      weigh_all-lt f (a ∷ b ∷ es) (items headers) start at,
    )

abbrev Sound : List Text → List EncodingInfo → ℕ → Type 0
Sound ts es i =
    (e : EncodingInfo) × (get_elem? es i ≡ some e)
    × ((e.encoding ≡ identity) ⊎ (mentions ts e.encoding ≡ true))

mentions-cons :
    (t : Text) (ts : List Text) (name : Text)
    → mentions ts name ≡ true
    → mentions (t ∷ ts) name ≡ true
mentions-cons t ts name h = ground arith

named-Sound :
    (t : Text) (ts : List Text) (es : List EncodingInfo) (i : ℕ)
    → index_of (coding t) es ≡ some i
    → Sound (t ∷ ts) es i
named-Sound t ts es i h =
    let (e, at, named) = index_of_lem (coding t) es h in
    (e, at, inr (rw (named, text_eq_refl (coding t))))

Sound-weaken :
    (ts us : List Text) (es : List EncodingInfo) (i : ℕ)
    → ((name : Text) → mentions ts name ≡ true → mentions us name ≡ true)
    → Sound ts es i
    → Sound us es i
Sound-weaken ts us es i more (e, at, inl same) = (e, at, inl same)
Sound-weaken ts us es i more (e, at, inr named) = (e, at, inr (more e.encoding named))

items-Sound :
    (us ts : List Text) (es : List EncodingInfo)
    → ((name : Text) → mentions ts name ≡ true → mentions us name ≡ true)
    → All (λ t. (i : ℕ) → index_of (coding t) es ≡ some i → Sound us es i) ts
items-Sound us [] es more = tt
items-Sound us (t ∷ ts) es more = (
  λ i found. Sound-weaken (t ∷ ts) us es i more (named-Sound t ts es i found),
  items-Sound us ts es (λ name h. more name (mentions-cons t ts name h)),
)

identity-Sound :
    (ts : List Text) (es : List EncodingInfo) (j : ℕ)
    → index_of identity es ≡ some j
    → Sound ts es j
identity-Sound ts es j found =
    let (e, at, named) = index_of_lem identity es found in (e, at, inl named)

-- The answer for a file that has an identity encoding: it comes without an error, and is "identity"
-- or an encoding that an item of the Accept-Encoding headers names.
pub negotiate_sound :
    (f : Float64) (headers : List Text) (es : List EncodingInfo) (j : ℕ)
    → index_of identity es ≡ some j
    → (i : ℕ) × (e : EncodingInfo) × (negotiate_encoding f headers es ≡ chosen i none)
      × (get_elem? es i ≡ some e)
      × ((e.encoding ≡ identity) ⊎ (mentions (items headers) e.encoding ≡ true))
unfolding negotiate_encoding index_of
negotiate_sound f headers [] j found = cc
negotiate_sound f headers (a ∷ []) j found =
    let same : text_eq a.encoding identity ≡ true = ground arith in
    (0, a, ground arith, refl, inl ((text_eq_iff a.encoding identity).0 same))
negotiate_sound f headers (a ∷ b ∷ es) j found =
    let (e, at, why) =
      weigh_all-index f (a ∷ b ∷ es) (Sound (items headers) (a ∷ b ∷ es)) (items headers)
        (f.zero, j) (identity-Sound (items headers) (a ∷ b ∷ es) j found)
        (items-Sound (items headers) (items headers) (a ∷ b ∷ es) (λ name h. h)) in
    (_, e, negotiate-items_found f headers (a ∷ b ∷ es) (omega arith) found, at, why)

module _ (f : Float64) (headers : List Text) (es : List EncodingInfo) (t : Text) (i j : ℕ) where
  -- If the headers hold one item, which names an encoding of the file and whose q value is more
  -- than 0.1 above 0.0, that encoding is the answer, wherever it is listed.
  pub negotiate_sole :
      items headers ≡ t ∷ []
      → index_of (coding t) es ≡ some i
      → index_of identity es ≡ some j
      → 1 < length es
      → f.lt f.tenth (f.sub (q_value f t) f.zero) ≡ true
      → negotiate_encoding f headers es ≡ chosen i none
  unfolding prefers
  negotiate_sole sole named found many high =
      negotiate-items_found f headers es many found
      ∙ rw sole (rw (weigh_all-single f es f.zero j t named) (rw high))

  -- If the headers hold one item, which refuses an encoding of the file with q=0, the refused
  -- encoding is the answer if it is listed before the identity encoding, and identity if not.
  pub negotiate_refused :
      IsStandard f
      → items headers ≡ t ∷ []
      → index_of (coding t) es ≡ some i
      → index_of identity es ≡ some j
      → 1 < length es
      → q_value f t ≡ f.zero
      → negotiate_encoding f headers es ≡ chosen (if ltb i j then i else j) none
  unfolding prefers
  negotiate_refused std sole named found many zero_q =
      negotiate-items_found f headers es many found
      ∙ rw sole (
          rw (weigh_all-single f es f.zero j t named)
            (rw (zero_q, std.zero_small, std.zero_close) (ground arith)))
