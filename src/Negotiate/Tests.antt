-- ===== src/Negotiate/Tests.antt =====
-- Runs of `negiotiateEncoding`, and the theorems of Negotiate/Laws at them.
use xtemplate.Prelude.{
  ℕ, ◌<◌, ◌≡◌, ◌⊎◌, refl, arith, true, none, some, List, [], ◌∷◌, Text, codes, length, get_elem?,
  ltb, if◌then◌else◌,
}
use xtemplate.Strings.{trim_space, trim_prefix, has_prefix, split}
use xtemplate.Negotiate.{
  EncodingInfo, chosen, identity, index_of, coding, q_value, prefers, negotiate_encoding,
}
use xtemplate.Negotiate.Floats.{tenths, tenths-IsStandard}
use xtemplate.Negotiate.Loops.{items}
use xtemplate.Negotiate.Laws.{
  missing_identity, mentions, negotiate_total, negotiate_sound, negotiate_refused,
}

abbrev info : Text → ℕ → EncodingInfo
info name size = record { encoding = name; path = codes "reset.css"; size = size; modtime = 0 }

-- The encodings of test/templates/assets/reset.css, the smallest first.
abbrev reset_css : List EncodingInfo
reset_css = info (codes "br") 600 ∷ info (codes "gzip") 700 ∷ info identity 2769 ∷ []

prefers_gzip : negotiate_encoding tenths (codes "br;q=0.5, gzip" ∷ []) reset_css ≡ chosen 1 none
unfolding negotiate_encoding index_of coding q_value prefers trim_space split has_prefix trim_prefix
prefers_gzip = refl

serves_identity : negotiate_encoding tenths (codes "deflate" ∷ []) reset_css ≡ chosen 2 none
unfolding negotiate_encoding index_of coding q_value prefers trim_space split
serves_identity = refl

negotiate_total_example :
    (i : ℕ) × (negotiate_encoding tenths (codes "gzip" ∷ []) reset_css
      ≡ chosen i (missing_identity reset_css))
    × (i < length reset_css)
negotiate_total_example = negotiate_total tenths (codes "gzip" ∷ []) reset_css (omega arith)

negotiate_sound_example :
    (i : ℕ) × (e : EncodingInfo) × (negotiate_encoding tenths (codes "gzip" ∷ []) reset_css
      ≡ chosen i none)
    × (get_elem? reset_css i ≡ some e)
    × ((e.encoding ≡ identity) ⊎ (mentions (items (codes "gzip" ∷ [])) e.encoding ≡ true))
unfolding index_of
negotiate_sound_example = negotiate_sound tenths (codes "gzip" ∷ []) reset_css 2 refl

negotiate_refused_example :
    negotiate_encoding tenths (codes "gzip;q=0" ∷ []) reset_css
    ≡ chosen (if ltb 1 2 then 1 else 2) none
unfolding items index_of coding q_value trim_space split has_prefix trim_prefix
negotiate_refused_example =
    negotiate_refused tenths (codes "gzip;q=0" ∷ []) reset_css (codes "gzip;q=0") 1 2
      tenths-IsStandard refl refl refl (omega arith) refl
