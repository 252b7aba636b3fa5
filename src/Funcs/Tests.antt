-- ===== src/Funcs/Tests.antt =====
-- Calls of the functions of funcs.go, and their theorems at them.
use xtemplate.Prelude.{
  ℕ, ◌+◌, ◌≡◌, ◌≢◌, ◌<◌, ◌↔◌, refl, true, all, none, some, [], ◌∷◌, codes, length,
}
use xtemplate.Prelude.Errors.{ok, err, external}
use xtemplate.Strings.{split}
use xtemplate.Funcs.{
  object, Libraries, word, is_digit, func_humanize, Registry, lookup, add_policy,
  add_markdown_config, func_markdown, func_sanitize_html, converted, html,
}
use xtemplate.Funcs.Tables.{Constructors, add_all, blue_monday_policies, markdown_configs}
use xtemplate.Funcs.Registries.{builtins_kept}
use xtemplate.Funcs.Humanize.{decimal, humanize_size}

-- One object has one method, which counts its calls and the arguments and fails.
abbrev libraries : Libraries ℕ
libraries = record {
  sanitize = λ policy s. s;
  convert = λ md s. ok s;
  bytes = λ n. codes "82 MB";
  num_error = λ e s. s;
  message = λ e. codes "cannot parse";
  parse_time = λ layout s. err (external 3);
  relative_time = λ t. codes "2 weeks ago";
  method_by_name = λ v name. some 9;
  outputs = λ f. 2;
  last_is_error = λ f. true;
  zero_argument = λ f i. none;
  call = λ f args w.
      some
        (record { world = w + 1; output = some (object (length args)); error = some (external 1) });
  element = λ arr i. none;
}

humanize_size_example :
    (func_humanize libraries (codes "size") (codes "82854982") ≡ ok (codes "82 MB")) ↔ (
      (codes "82854982" ≢ [])
      × (all is_digit (codes "82854982") ≡ true)
      × (decimal 0 (codes "82854982") < word)
      × (codes "82 MB" ≡ codes "82 MB"))
unfolding split
humanize_size_example =
    humanize_size libraries (codes "size") (codes "82854982") (codes "82 MB") [] refl

abbrev constructors : Constructors
constructors = record {
  strict_policy = 1;
  ugc_policy = 2;
  add_target_blank = λ p. p + 10;
  forbid_relative_urls = λ p. p + 20;
  new_markdown = λ opts. length opts;
}

-- The tables after a call of each.
abbrev policies_after : Registry
policies_after =
    (codes "ours", 7) ∷ (codes "strict", 1) ∷ (codes "ugc", 2) ∷ (codes "externalugc", 32) ∷ []

abbrev configs_after : Registry
configs_after = (codes "plain", 8) ∷ (codes "default", 4) ∷ (codes "unsafe", 5) ∷ []

builtins_kept_example :
    (func_sanitize_html libraries policies_after (codes "strict") (codes "b")
      ≡ ok (html (codes "b")))
    × (func_sanitize_html libraries policies_after (codes "ugc") (codes "b")
        ≡ ok (html (codes "b")))
    × (func_markdown libraries configs_after (codes "b") []
        ≡ converted libraries (libraries.convert 4 (codes "b")))
    × (func_markdown libraries configs_after (codes "b") (codes "unsafe" ∷ [])
        ≡ converted libraries (libraries.convert 5 (codes "b")))
    × (lookup (codes "ours") policies_after ≡ some 7)
unfolding add_all add_policy add_markdown_config blue_monday_policies markdown_configs lookup
builtins_kept_example =
    builtins_kept libraries constructors ((codes "ours", 7) ∷ []) ((codes "plain", 8) ∷ [])
      policies_after configs_after (codes "ours") (codes "b") refl refl
