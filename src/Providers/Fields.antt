-- ===== src/Providers/Fields.antt =====
-- The providers of a configuration and the check of instance.go that their field names differ.
use xtemplate.Prelude.{
  ℕ, ◌+◌, Option, none, some, List, [], ◌∷◌, ◌++◌, Text, text_eq, ltb, map, if◌then◌else◌,
}
use xtemplate.Prelude.Errors.{Error, errorf, text, int}
use xtemplate.Config.{Config}
use xtemplate.Providers.{Provider, database, flag, directory, nats_client, custom}

-- The `dot` slice: the configured providers in the order of the loops.
unfoldable pub configured : Config → List Provider
configured c =
    map database c.databases
    ++ (map flag c.flags
        ++ (map directory c.directories
            ++ (map nats_client c.nats ++ map custom c.custom_providers)))

-- `names[name] += 1`
unfoldable pub add_name : Text → List (Text × ℕ) → List (Text × ℕ)
unfolding text_eq
add_name name [] = (name, 1) ∷ []
add_name name ((n, count) ∷ names) =
    let rest = add_name name names in
    if text_eq n name then (n, count + 1) ∷ names else (n, count) ∷ rest

unfoldable pub count_names : List Text → List (Text × ℕ) → List (Text × ℕ)
unfolding add_name
count_names [] names = names
count_names (n ∷ ns) names = count_names ns (add_name n names)

-- The loop over the map `names`, in the order in which the entries are gone through.
unfoldable pub check_names : List (Text × ℕ) → Option Error
check_names [] = none
check_names ((name, count) ∷ names) =
    let rest = check_names names in
    if ltb 1 count
    then some (errorf "dot field name '%s' is used %d times" (text name ∷ int count ∷ []))
    else rest
