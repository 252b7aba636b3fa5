-- ===== src/Funcs.antt =====
-- funcs.go: the functions that xtemplate adds to those of the template engine.
pub mod Humanize
pub mod Calls
pub mod Tables
pub mod Maps
pub mod Registries
mod Tests
use xtemplate.Prelude.{
  ℕ, zero, suc, ◌+◌, ◌-◌, ◌*◌, ◌%◌, Bool, true, false, ◌&&◌, ◌||◌, Option, none, some, List, [],
  ◌∷◌, ◌++◌, Text, codes, text_eq, length, map, drop, ltb, leb, ◌==◌, if◌then◌else◌,
}
use xtemplate.Prelude.Errors.{Error, Result, ok, err, errorf, text, int, return_error}
use xtemplate.Strings.{split}
use xtemplate.FrontMatter.{Parsers, Extracted, failed, extracted, extract_front_matter}

-- How `strconv.ParseUint(data, 10, 64)` fails, and what it returns.
pub data NumError : Type 0 where
  invalid_syntax out_of_range : NumError

pub data Parsed : Type 0 where
  number : ℕ → Parsed
  refused : NumError → Parsed

-- A value of type `any`: nil, a string, a function value or anything else.
pub data AnyValue : Type 0 where
  nil : AnyValue
  string : Text → AnyValue
  function : ℕ → AnyValue
  object : ℕ → AnyValue

-- What `fnv.Call` does: it panics, or it leaves a state of what the function works on, the first of two
-- outputs, if there are two, and the last output.
pub record Called (W : Type 0) : Type 0 where
  pub world : W
  pub output : Option AnyValue
  pub error : Option Error

-- The libraries that the functions call. Policies, markdown converters, functions and times are
-- numbers. `num_error` and `message` give the texts of errors. `zero_argument f i` is the zero value of the parameter `i` of `f`; `none` is a panic.
pub record Libraries (W : Type 0) : Type 0 where
  pub sanitize : ℕ → Text → Text
  pub convert : ℕ → Text → Result Text
  pub bytes : ℕ → Text
  pub num_error : NumError → Text → Text
  pub message : Error → Text
  pub parse_time : Text → Text → Result ℕ
  pub relative_time : ℕ → Text
  pub method_by_name : AnyValue → Text → Option ℕ
  pub outputs : ℕ → ℕ
  pub last_is_error : ℕ → Bool
  pub zero_argument : ℕ → ℕ → Option AnyValue
  pub call : ℕ → List AnyValue → W → Option (Called W)
  pub element : AnyValue → ℕ → Option AnyValue

-- `blueMondayPolicies` or `markdownConfigs`
abbrev pub Registry : Type 0
Registry = List (Text × ℕ)

pub lookup : Text → Registry → Option ℕ
unfolding text_eq
lookup name [] = none
lookup name ((n, v) ∷ vs) = let rest = lookup name vs in if text_eq n name then some v else rest

-- `AddBlueMondayPolicy` and `AddMarkdownConifg`; they panic if the name is taken.
pub add_policy : Text → ℕ → Registry → Option Registry
unfolding lookup
add_policy name policy vs = elim (lookup name vs) [
  | some old ↦ none
  | none ↦ some ((name, policy) ∷ vs)
]

pub add_markdown_config : Text → ℕ → Registry → Option Registry
unfolding lookup
add_markdown_config name md vs = elim (lookup name vs) [
  | some old ↦ none
  | none ↦ some ((name, md) ∷ vs)
]

-- The string types of html/template that are not escaped again.
pub data Trusted : Type 0 where
  html html_attr js js_str srcset : Text → Trusted

func_trust_html : Text → Trusted
func_trust_html s = html s

func_trust_attr : Text → Trusted
func_trust_attr s = html_attr s

func_trust_js : Text → Trusted
func_trust_js s = js s

func_trust_js_str : Text → Trusted
func_trust_js_str s = js_str s

func_trust_src_set : Text → Trusted
func_trust_src_set s = srcset s

-- `FuncReturn`; `FuncFailf` makes its error with `fmt.Errorf`, which is a parameter here.
func_return : Result Text
func_return = err return_error

func_failf : (Text → List AnyValue → Error) → Text → List AnyValue → Result Text
func_failf fmt_errorf format args = err (fmt_errorf format args)

-- `parsedMarkdownDoc`
pub record ParsedMarkdownDoc : Type 0 where
  pub meta : Option ℕ
  pub body : Text

doc_of : Extracted → Result ParsedMarkdownDoc
doc_of (failed e) = err e
doc_of (extracted meta body) = ok (record { meta = meta; body = body })

func_split_front_matter : Parsers → Text → Result ParsedMarkdownDoc
unfolding doc_of
func_split_front_matter ps input = doc_of (extract_front_matter ps input)

abbrev pub word : ℕ
word = 18446744073709551616

-- The least `n` of which `10 * n` does not fit.
abbrev pub cutoff : ℕ
cutoff = 1844674407370955162

unfoldable pub is_digit : ℕ → Bool
is_digit c = leb b'0' c && leb c b'9'

-- The loop of `ParseUint` from `n` on, with the wrap-around of `n1 := n + uint64(d)`.
pub parse_digits : ℕ → Text → Parsed
unfolding is_digit
parse_digits n [] = number n
parse_digits n (c ∷ s) =
    let n1 = (n * 10 + (c - b'0')) % word in
    let rest = parse_digits n1 s in
    if is_digit c
    then (if leb cutoff n
        then refused out_of_range
        else if ltb n1 (n * 10)
        then refused out_of_range
        else rest)
    else refused invalid_syntax

pub parse_uint : Text → Parsed
unfolding parse_digits
parse_uint [] = refused invalid_syntax
parse_uint (c ∷ s) = parse_digits 0 (c ∷ s)

module _ {W : Type 0} (o : Libraries W) where
  pub func_sanitize_html : Registry → Text → Text → Result Trusted
  func_sanitize_html policies name s = elim (lookup name policies) [
    | none ↦ err (errorf "failed to find policy name '%s'" (text name ∷ []))
    | some policy ↦ ok (html (o.sanitize policy s))
  ]

  pub converted : Result Text → Result Trusted
  converted (err e) = err e
  converted (ok s) = ok (html s)

  markdown_with : Registry → Text → Text → Result Trusted
  unfolding converted
  markdown_with configs input config = elim (lookup config configs) [
    | none ↦ err (errorf "unknown markdown config name: %s" (text config ∷ []))
    | some md ↦ converted (o.convert md input)
  ]

  -- The switch on `len(configName)`
  pub func_markdown : Registry → Text → List Text → Result Trusted
  unfolding markdown_with
  func_markdown configs input [] = markdown_with configs input (codes "default")
  func_markdown configs input (name ∷ []) = markdown_with configs input name
  func_markdown configs input (name ∷ more) =
      err (errorf "too many configName arguments provided: %v" (map text (name ∷ more)))

  -- It panics out of range, and of what has no elements.
  func_idx : ℕ → AnyValue → Option AnyValue
  func_idx idx arr = o.element arr idx

  sized : Text → Parsed → Result Text
  sized data_ (refused e) =
      err (errorf "humanize: size cannot be parsed: %s" (text (o.num_error e data_) ∷ []))
  sized data_ (number n) = ok (o.bytes n)

  timed : Result ℕ → Result Text
  timed (err e) = err (errorf "humanize: time cannot be parsed: %s" (text (o.message e) ∷ []))
  timed (ok t) = ok (o.relative_time t)

  -- `time.RFC1123Z`, or what follows the first colon
  time_layout : Text → Text → List Text → Text
  time_layout whole first [] = codes "Mon, 02 Jan 2006 15:04:05 -0700"
  time_layout whole first (p ∷ ps) = drop (length first + 1) whole

  -- The switch on `parts[0]`; `strings.Split` never returns an empty list.
  humanize_parts : Text → List Text → Text → Result Text
  unfolding sized timed time_layout parse_uint text_eq
  humanize_parts whole [] data_ = err (errorf "no know function was given" [])
  humanize_parts whole (first ∷ parts) data_ =
      if text_eq first (codes "size")
      then sized data_ (parse_uint data_)
      else if text_eq first (codes "time")
      then timed (o.parse_time (time_layout whole first parts) data_)
      else err (errorf "no know function was given" [])

  pub func_humanize : Text → Text → Result Text
  unfolding humanize_parts split
  func_humanize format_type data_ = humanize_parts format_type (split b':' format_type) data_
