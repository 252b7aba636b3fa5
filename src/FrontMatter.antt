-- ===== src/FrontMatter.antt =====
-- frontmatter.go: the metadata at the head of a document. Positions count code points; the parsers
-- of YAML, TOML and JSON are parameters.
pub mod RoundTrip
mod Tests
use xtemplate.Prelude.{
  ℕ, zero, suc, ◌+◌, Bool, true, false, ◌&&◌, Option, none, some, List, [], ◌∷◌, ◌++◌, Text, codes,
  text_eq, length, take, drop, ltb, ◌==◌, if◌then◌else◌,
}
use xtemplate.Prelude.Errors.{Error, Result, ok, err, errorf}
use xtemplate.Strings.{is_space, trim_space, index}

-- `json.Unmarshal`, `yaml.Unmarshal` and `toml.Unmarshal` into a `map[string]any`; the map is a
-- number.
pub record Parsers : Type 0 where
  pub yaml : Text → Result ℕ
  pub toml : Text → Result ℕ
  pub json : Text → Result ℕ

pub record FrontMatterType : Type 0 where
  pub fence_open : Text
  pub fence_close : List Text
  pub parse_func : Text → Result ℕ

-- `jsonFrontMatter` puts the braces back that served as fences.
pub json_front_matter : Parsers → Text → Result ℕ
json_front_matter ps input = ps.json (b'{' ∷ (input ++ b'}' ∷ []))

pub supported : Parsers → List FrontMatterType
supported ps =
    record {
      fence_open = codes "---";
      fence_close = codes "---" ∷ codes "..." ∷ [];
      parse_func = ps.yaml;
    }
    ∷ record { fence_open = codes "+++"; fence_close = codes "+++" ∷ []; parse_func = ps.toml }
    ∷ record {
      fence_open = codes "{";
      fence_close = codes "}" ∷ [];
      parse_func = json_front_matter ps;
    }
    ∷ []

-- The variables of the first loop: `firstLineStart`, `firstLineEnd`, `lineEmpty`.
pub record Bounds : Type 0 where
  pub start : ℕ
  pub end : ℕ
  pub empty : Bool

-- `firstLineStart = firstLineEnd`, past the newline if it is not 0
next_start : ℕ → ℕ
next_start e = if ltb 0 e then e + 1 else e

-- The loop from position `i` on; it breaks at the newline of the first line that is not empty.
pub bounds_loop : ℕ → Text → Bounds → Bounds
unfolding next_start
bounds_loop i [] b = b
bounds_loop i (c ∷ s) b =
    let at_newline = record b { start = next_start b.end; end = i } in
    let next_line = bounds_loop (suc i) s at_newline in
    let in_line = bounds_loop (suc i) s (record b { empty = b.empty && is_space c }) in
    if c == 10 then (if b.empty then next_line else at_newline) else in_line

-- `s[from:to]` and `s[from:]`
pub slice : ℕ → ℕ → Text → Text
slice from to s = drop from (take to s)

pub first_line : Text → Text
unfolding bounds_loop slice
first_line input =
    let b = bounds_loop 0 input (record { start = 0; end = 0; empty = true }) in
    trim_space (slice b.start b.end input)

pub first_line_end : Text → ℕ
unfolding bounds_loop
first_line_end input = (bounds_loop 0 input (record { start = 0; end = 0; empty = true })).end

-- The loop over the supported types; the fences differ, so one at most is taken.
pub find_type : Text → List FrontMatterType → Option FrontMatterType
unfolding text_eq
find_type line [] = none
find_type line (t ∷ ts) =
    let rest = find_type line ts in
    elim rest [ some u ↦ some u | none ↦ if text_eq line t.fence_open then some t else none ]

-- The loop over the closing fences: the first one that occurs, and where.
pub find_fence : Text → List Text → Option (ℕ × Text)
find_fence rest [] = none
find_fence rest (fence ∷ fences) =
    let later = find_fence rest fences in
    elim (index rest (10 ∷ fence)) [ some i ↦ some (i, fence) | none ↦ later ]

-- The results `map[string]any` (`none` is nil), the body, and no error.
pub data Extracted : Type 0 where
  failed : Error → Extracted
  extracted : Option ℕ → Text → Extracted

parsed : Result ℕ → Text → Extracted
parsed (err e) body = failed e
parsed (ok fm) body = extracted (some fm) body

pub cut : FrontMatterType → ℕ → Text → Extracted
unfolding find_fence slice parsed
cut t line_end input = elim (find_fence (drop line_end input) t.fence_close) [
  | none ↦ failed (errorf "unterminated front matter" [])
  | some (i, fence) ↦
      let close = i + (line_end + 1) in
      parsed (t.parse_func (slice line_end close input)) (drop (close + length fence) input)
]

pub extract_front_matter : Parsers → Text → Extracted
unfolding find_type cut supported first_line first_line_end
extract_front_matter ps input = elim (find_type (first_line input) (supported ps)) [
  | none ↦ extracted none input
  | some t ↦ cut t (first_line_end input) input
]
