-- ===== src/FrontMatter/Tests.antt =====
-- Runs of frontmatter.go, and its theorems at concrete documents.
use xtemplate.Prelude.{◌≡◌, refl, none, some, codes, length}
use xtemplate.Prelude.Errors.{ok, err, external}
use xtemplate.Strings.{index, trim_space}
use xtemplate.FrontMatter.{Parsers, extracted, extract_front_matter}
use xtemplate.FrontMatter.RoundTrip.{toml, document, extract-document}

-- Parsers that accept everything, with the length of the text as the map.
abbrev counting : Parsers
counting = record {
  yaml = λ s. ok (length s);
  toml = λ s. ok (length s);
  json = λ s. err (external 7);
}

plain_document : extract_front_matter counting (codes "hello") ≡ extracted none (codes "hello")
unfolding extract_front_matter trim_space
plain_document = refl

extract-document_example :
    extract_front_matter counting (document toml (codes "a = 1") (codes "\nbody"))
    ≡ extracted (some 7) (codes "\nbody")
unfolding index
extract-document_example = extract-document counting toml (codes "a = 1") (codes "\nbody") refl
