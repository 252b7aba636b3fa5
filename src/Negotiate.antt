-- ===== src/Negotiate.antt =====
-- handlers.go, `negiotiateEncoding`: which of a file's encodings a request is given.
pub mod Floats
pub mod Loops
pub mod Laws
mod Tests
use mathlib.Core.List.{flat_map}
use xtemplate.Prelude.{
  ℕ, suc, Bool, true, false, ◌&&◌, ◌||◌, Option, none, some, List, [], ◌∷◌, Text, codes, text_eq,
  ◌-◌, ltb, if◌then◌else◌, length, arith,
}
use xtemplate.Prelude.Errors.{Error, errorf}
use xtemplate.Strings.{trim_space, trim_prefix, has_prefix, split}
use xtemplate.Negotiate.Floats.{Float64}

-- build.go; the time is a number that only `Equal` and `ServeContent` read.
pub record EncodingInfo : Type 0 where
  pub encoding : Text
  pub path : Text
  pub size : ℕ
  pub modtime : ℕ

-- `nil, err`, or `&encodings[i], err`; an index beyond the slice panics.
pub data Choice : Type 0 where
  no_encoding : Error → Choice
  chosen : ℕ → Option Error → Choice

abbrev pub identity : Text
identity = codes "identity"

abbrev next_index : Option ℕ → Option ℕ
next_index none = none
next_index (some i) = some (suc i)

-- `for i, e := range encodings { if e.encoding == name { …; break } }`
unfoldable pub index_of : Text → List EncodingInfo → Option ℕ
unfolding text_eq
index_of name [] = none
index_of name (e ∷ es) =
    let rest = next_index (index_of name es) in if text_eq e.encoding name then some 0 else rest

-- `strings.Split` never returns an empty slice, so `parts[0]` is there.
abbrev parts_0 : List Text → Text
parts_0 [] = []
parts_0 (p ∷ ps) = p

abbrev parts_from_1 : List Text → List Text
parts_from_1 [] = []
parts_from_1 (p ∷ ps) = ps

-- `encpart` of a requested encoding
pub coding : Text → Text
coding requested = trim_space (parts_0 (split b';' requested))

start_index : List EncodingInfo → Option ℕ → ℕ × Option Error
start_index es (some i) = (i, none)
start_index es none = (length es - 1, some (errorf "identity encoding missing" []))

single : EncodingInfo → Choice
single e =
    if text_eq e.encoding identity
    then chosen 0 none
    else chosen 0 (some (errorf "identity encoding missing" []))

module _ (f : Float64) where
  open f use {F, zero, one, tenth, sub, abs, lt, le, parse_float}

  -- The loop over `parts[1:]`; `q` is 1.0 before it.
  q_of_parts : List Text → F
  q_of_parts [] = one
  q_of_parts (part ∷ parts) =
      let rest = q_of_parts parts in
      let trimmed = trim_space part in
      if has_prefix trimmed (codes "q=")
      then elim (parse_float (trim_space (trim_prefix trimmed (codes "q=")))) [
        | some parsed ↦ parsed
        | none ↦ rest
      ]
      else rest

  pub q_value : Text → F
  unfolding q_of_parts
  q_value requested = q_of_parts (parts_from_1 (split b';' requested))

  -- `q-maxq > 0.1 || (math.Abs(q-maxq) <= 0.1 && requestedIdx < maxqIdx)`
  pub prefers : F → F → ℕ → ℕ → Bool
  prefers q maxq requested_idx maxq_idx =
      lt tenth (sub q maxq) || (le (abs (sub q maxq)) tenth && ltb requested_idx maxq_idx)

  -- One round of the inner loop, on `maxq` and `maxqIdx`.
  pub consider : List EncodingInfo → F × ℕ → Text → F × ℕ
  unfolding prefers
  consider es (maxq, maxq_idx) item =
      let requested = trim_space item in
      if text_eq requested [] then (maxq, maxq_idx) else elim (index_of (coding requested) es) [
        | none ↦ (maxq, maxq_idx)
        | some i ↦
            if prefers (q_value requested) maxq i maxq_idx
            then (q_value requested, i)
            else (maxq, maxq_idx)
      ]

  items_loop : List EncodingInfo → F × ℕ → List Text → F × ℕ
  unfolding consider
  items_loop es best [] = best
  items_loop es best (item ∷ items) = items_loop es (consider es best item) items

  pub headers_loop : List EncodingInfo → F × ℕ → List Text → F × ℕ
  unfolding items_loop
  headers_loop es best [] = best
  headers_loop es best (header ∷ headers) =
      headers_loop es
        (if text_eq (trim_space header) []
          then best
          else items_loop es best (split b',' (trim_space header)))
        headers

  unfoldable pub negotiate_encoding : List Text → List EncodingInfo → Choice
  unfolding headers_loop start_index single
  negotiate_encoding headers [] =
      no_encoding (errorf "impossible condition, fileInfo contains no encodings" [])
  negotiate_encoding headers (e ∷ []) = single e
  negotiate_encoding headers (e ∷ d ∷ es) =
      let (i, missing) = start_index (e ∷ d ∷ es) (index_of identity (e ∷ d ∷ es)) in
      chosen (headers_loop (e ∷ d ∷ es) (zero, i) headers).1 missing
