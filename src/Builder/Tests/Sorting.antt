-- ===== src/Builder/Tests/Sorting.antt =====
-- A sort by size for the tests of the builder, as `sort.Slice` is assumed.
use xtemplate.Prelude.{
  ℕ, ◌+◌, ◌≡◌, ◌≤◌, refl, arith, Bool, ◌||◌, Bool-cases, inl, inr, List, [], ◌∷◌, leb, any, All,
  length, if◌then◌else◌,
}
use xtemplate.Negotiate.{EncodingInfo}
use xtemplate.Builder.Entries.{IsSorted, SortsBySize}

insert : EncodingInfo → List EncodingInfo → List EncodingInfo
insert e [] = e ∷ []
insert e (d ∷ ds) = let rest = insert e ds in if leb e.size d.size then e ∷ d ∷ ds else d ∷ rest

unfoldable pub sort : List EncodingInfo → List EncodingInfo
unfolding insert
sort [] = []
sort (e ∷ es) = insert e (sort es)

any-insert :
    (p : EncodingInfo → Bool) (e : EncodingInfo) (es : List EncodingInfo)
    → any p (insert e es) ≡ (p e || any p es)
unfolding insert
any-insert p e [] = refl
any-insert p e (d ∷ ds) = elim (Bool-cases (leb e.size d.size)) [
  | inl low ↦ rw (insert, low) refl
  | inr high ↦ rw (insert, high) (rw (any-insert p e ds) (ground arith))
]

any-sort : (p : EncodingInfo → Bool) (es : List EncodingInfo) → any p (sort es) ≡ any p es
unfolding sort
any-sort p [] = refl
any-sort p (e ∷ es) = rw (any-insert p e (sort es), any-sort p es) refl

length-insert : (e : EncodingInfo) (es : List EncodingInfo) → length (insert e es) ≡ length es + 1
unfolding insert
length-insert e [] = refl
length-insert e (d ∷ ds) = elim (Bool-cases (leb e.size d.size)) [
  | inl low ↦ rw (insert, low) (omega arith)
  | inr high ↦ rw (insert, high) (omega (arith, length-insert e ds))
]

length-sort : (es : List EncodingInfo) → length (sort es) ≡ length es
unfolding sort
length-sort [] = refl
length-sort (e ∷ es) = omega (arith, length-insert e (sort es), length-sort es)

AtLeast : ℕ → List EncodingInfo → Type 0
AtLeast n es = All (λ (d : EncodingInfo). n ≤ d.size) es

AtLeast-insert :
    (n : ℕ) (e : EncodingInfo) (es : List EncodingInfo)
    → n ≤ e.size
    → AtLeast n es
    → AtLeast n (insert e es)
unfolding AtLeast insert
AtLeast-insert n e [] h hs = (h, tt)
AtLeast-insert n e (d ∷ ds) h (k, ks) = elim (Bool-cases (leb e.size d.size)) [
  | inl low ↦ rw (insert, low) (h, (k, ks))
  | inr high ↦ rw (insert, high) (k, AtLeast-insert n e ds h ks)
]

AtLeast-weaken : (m n : ℕ) (es : List EncodingInfo) → m ≤ n → AtLeast n es → AtLeast m es
unfolding AtLeast
AtLeast-weaken m n [] h hs = tt
AtLeast-weaken m n (d ∷ ds) h (k, ks) = (omega (arith, h, k), AtLeast-weaken m n ds h ks)

insert-IsSorted : (e : EncodingInfo) (es : List EncodingInfo) → IsSorted es → IsSorted (insert e es)
unfolding insert AtLeast
insert-IsSorted e [] h = (tt, tt)
insert-IsSorted e (d ∷ ds) (k, h) = elim (Bool-cases (leb e.size d.size)) [
  | inl low ↦
      let le : e.size ≤ d.size = ground (arith, low) in
      rw (insert, low) ((le, AtLeast-weaken e.size d.size ds le k), (k, h))
  | inr high ↦
      let le : d.size ≤ e.size = ground (arith, high) in
      rw (insert, high) (AtLeast-insert d.size e ds le k, insert-IsSorted e ds h)
]

sort-IsSorted : (es : List EncodingInfo) → IsSorted (sort es)
unfolding sort
sort-IsSorted [] = tt
sort-IsSorted (e ∷ es) = insert-IsSorted e (sort es) (sort-IsSorted es)

pub sort-SortsBySize : SortsBySize sort
sort-SortsBySize = record { sorted = sort-IsSorted; kept = any-sort; as_long = length-sort }
