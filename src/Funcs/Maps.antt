-- ===== src/Funcs/Maps.antt =====
-- The maps of functions and templates by name that an instance has: `maps.Copy` in instance.go, and
-- DotX.Func and DotX.Template of dot_instance.go.
use xtemplate.Prelude.{ℕ, Option, none, some, List, [], ◌∷◌, ◌++◌, Text, text_eq, if◌then◌else◌}
use xtemplate.Prelude.Errors.{Result, ok, err, errorf, wrapf, text}

-- Maps from names; the first entry of a name is the one that was written last.
abbrev pub Funcs : Type 0
Funcs = List (Text × ℕ)

-- `maps.Copy(dst, src)`
unfoldable pub copy_funcs : Funcs → Funcs → Funcs
copy_funcs dst src = src ++ dst

unfoldable pub copy_all : Funcs → List Funcs → Funcs
unfolding copy_funcs
copy_all dst [] = dst
copy_all dst (src ∷ more) = copy_all (copy_funcs dst src) more

-- `DotX.Func`; nil if there is none.
unfoldable pub find_func : Text → Funcs → Option ℕ
unfolding text_eq
find_func name [] = none
find_func name ((n, f) ∷ fs) =
    let rest = find_func name fs in if text_eq n name then some f else rest

-- `DotX.Template`, with `Template.Execute` into an empty buffer as a parameter.
invoke_template : (ℕ → Result Text) → Text → List (Text × ℕ) → Result Text
unfolding find_func
invoke_template execute name templates = elim (find_func name templates) [
  | none ↦ err (errorf "failed to lookup template name: '%s'" (text name ∷ []))
  | some t ↦ elim (execute t) [
    | ok out ↦ ok out
    | err e ↦ err (wrapf "failed to execute template '%s': %w" (text name ∷ []) e)
  ]
]
