-- ===== src/Funcs/Tables.antt =====
-- The tables of funcs.go as the program starts with them, and what calls of AddBlueMondayPolicy and
-- AddMarkdownConifg make of them.
use xtemplate.Prelude.{ℕ, Option, none, some, List, [], ◌∷◌, ◌++◌, Text, codes}
use xtemplate.Funcs.{Registry}

-- `xtemplateFuncs`; the functions are numbered in the order of the table.
abbrev pub xtemplate_funcs : List (Text × ℕ)
xtemplate_funcs =
    (codes "sanitizeHtml", 0)
    ∷ (codes "markdown", 1)
    ∷ (codes "splitFrontMatter", 2)
    ∷ (codes "return", 3)
    ∷ (codes "failf", 4)
    ∷ (codes "humanize", 5)
    ∷ (codes "trustHtml", 6)
    ∷ (codes "trustAttr", 7)
    ∷ (codes "trustJS", 8)
    ∷ (codes "trustJSStr", 9)
    ∷ (codes "trustSrcSet", 10)
    ∷ (codes "idx", 11)
    ∷ (codes "try", 12)
    ∷ []

-- The constructors of bluemonday and goldmark.
pub data MarkdownOption : Type 0 where
  gfm footnote highlighting_with_classes auto_heading_id unsafe_html : MarkdownOption

pub record Constructors : Type 0 where
  pub strict_policy : ℕ
  pub ugc_policy : ℕ
  pub add_target_blank : ℕ → ℕ
  pub forbid_relative_urls : ℕ → ℕ
  pub new_markdown : List MarkdownOption → ℕ

unfoldable pub blue_monday_policies : Constructors → Registry
blue_monday_policies k =
    (codes "strict", k.strict_policy)
    ∷ (codes "ugc", k.ugc_policy)
    ∷ (codes "externalugc", k.forbid_relative_urls (k.add_target_blank k.ugc_policy))
    ∷ []

unfoldable pub md_opts : List MarkdownOption
md_opts = gfm ∷ footnote ∷ highlighting_with_classes ∷ auto_heading_id ∷ []

unfoldable pub markdown_configs : Constructors → Registry
unfolding md_opts
markdown_configs k =
    (codes "default", k.new_markdown md_opts)
    ∷ (codes "unsafe", k.new_markdown (md_opts ++ unsafe_html ∷ []))
    ∷ []

-- Calls of `add` one after another; the first that panics ends the program.
unfoldable pub add_next : (Registry → Option Registry) → Option Registry → Option Registry
add_next rest none = none
add_next rest (some vs) = rest vs

unfoldable pub add_all :
    (Text → ℕ → Registry → Option Registry) → List (Text × ℕ) → Registry → Option Registry
unfolding add_next
add_all add [] vs = some vs
add_all add ((name, v) ∷ calls) vs = add_next (add_all add calls) (add name v vs)
