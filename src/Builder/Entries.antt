-- ===== src/Builder/Entries.antt =====
-- What holds of each file in the map of the builder, and that writes keep it.
use mathlib.Core.Path.{subst}
use xtemplate.Prelude.{
  ◌≤◌, ◌≡◌, arith, Bool, true, inl, inr, Bool-cases, some, List, [], ◌∷◌, Text, text_eq,
  text_eq_iff, any, All, length,
}
use xtemplate.Negotiate.{EncodingInfo, identity}
use xtemplate.StaticFile.{FileInfo}
use xtemplate.Builder.{find_file, put_file, get_pattern}

abbrev pub IsSorted : List EncodingInfo → Type 0
IsSorted [] = Unit
IsSorted (e ∷ es) = All (λ d. e.size ≤ d.size) es × IsSorted es

-- `sort.Slice` with the order of the builder: the result is sorted and has the same elements.
pub record SortsBySize (sort : List EncodingInfo → List EncodingInfo) : Type 0 where
  pub sorted : (es : List EncodingInfo) → IsSorted (sort es)
  pub kept : (p : EncodingInfo → Bool) (es : List EncodingInfo) → any p (sort es) ≡ any p es
  pub as_long : (es : List EncodingInfo) → length (sort es) ≡ length es

abbrev pub is_identity : EncodingInfo → Bool
is_identity e = text_eq e.encoding identity

-- A file of the map under `k`: it has that path, an identity encoding, its encodings are sorted, and
-- its route is registered.
pub record IsEntry (router : List Text) (k : Text) (f : FileInfo) : Type 0 where
  pub path : f.identity_path ≡ k
  pub has_identity : any is_identity f.encodings ≡ true
  pub sorted : IsSorted f.encodings
  pub routed : any (λ p. text_eq p (get_pattern k)) router ≡ true

abbrev pub Entries : List Text → List (Text × FileInfo) → Type 0
Entries router fs = All (λ (e : Text × FileInfo). IsEntry router e.0 e.1) fs

pub put_file-Entries :
    {router : List Text} (k : Text) (f : FileInfo) (fs : List (Text × FileInfo))
    → IsEntry router k f
    → Entries router fs
    → Entries router (put_file k f fs)
unfolding put_file
put_file-Entries k f [] h hs = (h, tt)
put_file-Entries k f ((j, g) ∷ fs) h (hg, hs) = elim (Bool-cases (text_eq j k)) [
  | inl same ↦ rw (put_file, same) (h, hs)
  | inr other ↦ rw (put_file, other) (hg, put_file-Entries k f fs h hs)
]

pub find_file-IsEntry :
    {router : List Text} (k : Text) {f : FileInfo} (fs : List (Text × FileInfo))
    → Entries router fs
    → find_file k fs ≡ some f
    → IsEntry router k f
unfolding find_file
find_file-IsEntry k [] hs e = absurd (ground (arith, e))
find_file-IsEntry {router} k {f} ((j, g) ∷ fs) (hg, hs) e = elim (Bool-cases (text_eq j k)) [
  | inl same ↦
      let found : g ≡ f = ground (arith, rw (find_file, same) at e) in
      subst (λ i. IsEntry router i f) ((text_eq_iff j k).0 same)
        (subst (λ u. IsEntry router j u) found hg)
  | inr other ↦ find_file-IsEntry k fs hs (rw (find_file, other) at e)
]

pub Entries-routed :
    (router : List Text) (p : Text) (fs : List (Text × FileInfo))
    → Entries router fs
    → Entries (p ∷ router) fs
Entries-routed router p [] hs = tt
Entries-routed router p ((k, f) ∷ fs) (h, hs) = (
  record {
    path = h.path;
    has_identity = h.has_identity;
    sorted = h.sorted;
    routed = ground (arith, h.routed);
  },
  Entries-routed router p fs hs,
)
