-- ===== src/Instance/Functions.antt =====
-- Which function a template calls by a name.
use xtemplate.Prelude.{
  ℕ, ◌≡◌, refl, sym, ◌∙◌, ap, Bool-cases, inl, inr, Option, none, some, List, [], ◌∷◌, ◌++◌, map,
  Text, text_eq,
}
use xtemplate.Config.{Config}
use xtemplate.Funcs.Tables.{xtemplate_funcs}
use xtemplate.Builder.{Builder}
use xtemplate.Funcs.Maps.{Funcs, copy_funcs, copy_all, find_func}
use xtemplate.Instance.{Surroundings, new_instance}

abbrev pub or_else : Option ℕ → Option ℕ → Option ℕ
or_else none o = o
or_else (some f) o = some f

-- The function of the last map that has the name.
abbrev pub last_of : Text → List Funcs → Option ℕ
last_of name [] = none
last_of name (fs ∷ more) = or_else (last_of name more) (find_func name fs)

or_else_assoc : (a b c : Option ℕ) → or_else a (or_else b c) ≡ or_else (or_else a b) c
or_else_assoc none b c = refl
or_else_assoc (some f) b c = refl

or_else-none : (a : Option ℕ) → or_else a none ≡ a
or_else-none none = refl
or_else-none (some f) = refl

find_func-append :
    (name : Text) (fs gs : Funcs)
    → find_func name (fs ++ gs) ≡ or_else (find_func name fs) (find_func name gs)
unfolding find_func
find_func-append name [] gs = refl
find_func-append name ((n, f) ∷ fs) gs = elim (Bool-cases (text_eq n name)) [
  | inl same ↦ rw same refl
  | inr other ↦ rw other (find_func-append name fs gs)
]

find_func-copy_all :
    (name : Text) (dst : Funcs) (srcs : List Funcs)
    → find_func name (copy_all dst srcs) ≡ or_else (last_of name srcs) (find_func name dst)
unfolding copy_all copy_funcs
find_func-copy_all name dst [] = refl
find_func-copy_all name dst (src ∷ more) =
    find_func-copy_all name (src ++ dst) more
    ∙ ap (or_else (last_of name more)) (find_func-append name src dst)
    ∙ or_else_assoc (last_of name more) (find_func name src) (find_func name dst)

-- `DotX.Func` gives, for every name, the function of the last of the maps that has it: the maps of the
-- configuration go before the functions of sprig, and these before those of xtemplate.
pub funcs_precedence :
    {W : Type 0} (s : Surroundings W) (id : ℕ) (c : Config) (b : Builder) (name : Text)
    → find_func name (new_instance s id c b).funcs
      ≡ or_else
          (last_of name (map s.func_map c.func_maps))
          (or_else (find_func name s.sprig_funcs) (find_func name xtemplate_funcs))
unfolding new_instance find_func
funcs_precedence s id c b name =
    let maps = map s.func_map c.func_maps in
    find_func-copy_all name [] (xtemplate_funcs ∷ s.sprig_funcs ∷ maps)
    ∙ or_else-none _
    ∙ sym (
        or_else_assoc (last_of name maps) (find_func name s.sprig_funcs)
          (find_func name xtemplate_funcs))
