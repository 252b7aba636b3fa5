-- ===== src/Paths.antt =====
-- The functions of Go's package path that the program calls, and of path/filepath on a system whose
-- separator is the slash.
use mathlib.Core.List.{reverse}
use xtemplate.Prelude.{
  Bool, true, false, ◌||◌, ◌≡◌, refl, List, [], ◌∷◌, ◌++◌, Text, codes, text_eq, ◌==◌, ℕ,
  if◌then◌else◌,
}
use xtemplate.Strings.{split}

abbrev slash : ℕ
slash = b'/'

up : Bool → List Text → List Text
up true [] = []
up false [] = codes ".." ∷ []
up rooted (top ∷ rest) = if text_eq top (codes "..") then codes ".." ∷ top ∷ rest else rest

-- One element of the path, on the stack of the elements before it, the last one first.
clean_step : Bool → List Text → Text → List Text
unfolding up text_eq
clean_step rooted stack part =
    if text_eq part [] || text_eq part (codes ".")
    then stack
    else if text_eq part (codes "..")
    then up rooted stack
    else part ∷ stack

clean_parts : Bool → List Text → List Text → List Text
unfolding clean_step
clean_parts rooted stack [] = reverse stack
clean_parts rooted stack (part ∷ parts) = clean_parts rooted (clean_step rooted stack part) parts

pub join_slash : List Text → Text
join_slash [] = []
join_slash (w ∷ []) = w
join_slash (w ∷ v ∷ ws) = w ++ (slash ∷ join_slash (v ∷ ws))

clean_relative : Text → Text
clean_relative [] = codes "."
clean_relative (c ∷ s) = c ∷ s

-- `path.Clean`
unfoldable pub clean : Text → Text
unfolding clean_parts clean_relative join_slash split
clean [] = codes "."
clean (c ∷ s) =
    if c == slash
    then slash ∷ join_slash (clean_parts true [] (split slash s))
    else clean_relative (join_slash (clean_parts false [] (split slash (c ∷ s))))

-- `path.Join` of two elements: the empty ones are left out.
unfoldable pub join : Text → Text → Text
unfolding clean
join [] [] = []
join [] (c ∷ s) = clean (c ∷ s)
join (c ∷ s) [] = clean (c ∷ s)
join (c ∷ s) (d ∷ t) = clean ((c ∷ s) ++ (slash ∷ d ∷ t))

-- The part of a reversed path up to its first slash, and the rest with the slash.
split_rev : Text → Text → Text × Text
split_rev file [] = (file, [])
split_rev file (c ∷ s) =
    let rest = split_rev (c ∷ file) s in if c == slash then (file, c ∷ s) else rest

-- `filepath.Split`: the directory with its slash, and the file
unfoldable pub split_path : Text → Text × Text
unfolding split_rev
split_path p = let (file, dir) = split_rev [] (reverse p) in (reverse dir, file)

drop_slashes : Text → Text
drop_slashes [] = []
drop_slashes (c ∷ s) = let rest = drop_slashes s in if c == slash then rest else c ∷ s

base_of : Text → Text → Text
base_of [] p = codes "."
base_of (c ∷ s) [] = slash ∷ []
base_of (c ∷ s) (d ∷ t) = (split_path (reverse (d ∷ t))).1

-- `path.Base`
unfoldable pub base : Text → Text
unfolding base_of drop_slashes split_path
base p = base_of p (drop_slashes (reverse p))

-- `path.Dir`
unfoldable pub dir : Text → Text
unfolding split_path clean
dir p = clean (split_path p).0

ext_rev : Text → Text → Text
ext_rev suffix [] = []
ext_rev suffix (c ∷ s) =
    let rest = ext_rev (c ∷ suffix) s in
    if c == slash then [] else if c == b'.' then c ∷ suffix else rest

-- `filepath.Ext`
unfoldable pub ext : Text → Text
unfolding ext_rev
ext p = ext_rev [] (reverse p)

clean_runs :
    (clean (codes "/a/b/../c//./d/..") ≡ codes "/a/c")
    × (clean (codes "a/../../b") ≡ codes "../b")
    × (clean (codes "/..") ≡ codes "/")
    × (clean (codes "a/..") ≡ codes ".")
unfolding clean
clean_runs = (refl, refl, refl, refl)

parts_run :
    (ext (codes "/a.b/reset.css.gz") ≡ codes ".gz")
    × (ext (codes "/a.b/reset") ≡ [])
    × (base (codes "/a/index{$}") ≡ codes "index{$}")
    × (base (codes "/") ≡ codes "/")
    × (dir (codes "/a/index") ≡ codes "/a")
    × (dir (codes "/index") ≡ codes "/")
    × (join (codes "sub") (codes "../x") ≡ codes "x")
unfolding ext base dir join
parts_run = (refl, refl, refl, refl, refl, refl, refl)
