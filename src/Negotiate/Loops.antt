-- ===== src/Negotiate/Loops.antt =====
-- The nested loops of `negiotiateEncoding` as one loop over the requested encodings.
use xtemplate.Prelude.{
  ℕ, suc, ◌<◌, ◌≡◌, refl, sym, ◌∙◌, none, some, List, [], ◌∷◌, ◌++◌, Text, text_eq, text_eq_iff,
  if◌then◌else◌, length, get_elem?, arith, All, Bool-cases, Option-cases, inl, inr,
}
use xtemplate.Strings.{trim_space, split}
use xtemplate.Negotiate.{
  EncodingInfo, index_of, coding, q_value, prefers, consider, items_loop, headers_loop,
}
use xtemplate.Negotiate.Floats.{Float64}

-- The requested encodings that are not empty, with no spaces around them.
keep : List Text → List Text
keep [] = []
keep (t ∷ ts) =
    let rest = keep ts in if text_eq (trim_space t) [] then rest else trim_space t ∷ rest

pub header_items : Text → List Text
unfolding keep
header_items h = if text_eq (trim_space h) [] then [] else keep (split b',' (trim_space h))

unfoldable pub items : List Text → List Text
unfolding header_items
items [] = []
items (h ∷ hs) = header_items h ++ items hs

pub index_of-lt :
    (name : Text) (es : List EncodingInfo) {i : ℕ} → index_of name es ≡ some i → i < length es
unfolding index_of
index_of-lt name [] h = cc
index_of-lt name (e ∷ es) {i} h = elim (Option-cases (index_of name es)) [
  | inl missing ↦ ground (arith, missing)
  | inr (j, found) ↦ ground (arith, found, index_of-lt name es found)
]

-- The encoding at the index that is found has the name.
pub index_of_lem :
    (name : Text) (es : List EncodingInfo) {i : ℕ}
    → index_of name es ≡ some i
    → (e : EncodingInfo) × (get_elem? es i ≡ some e) × (e.encoding ≡ name)
unfolding index_of
index_of_lem name [] h = cc
index_of_lem name (e ∷ es) {i} h = elim (Bool-cases (text_eq e.encoding name)) [
  | inl same ↦
      let at : 0 ≡ i = ground (arith, same, h) in
      (e, rw (← at) refl, (text_eq_iff e.encoding name).0 same)
  | inr other ↦ elim (Option-cases (index_of name es)) [
    | inl missing ↦ absurd (ground (arith, other, missing, h))
    | inr (j, found) ↦
        let at : suc j ≡ i = ground (arith, other, found, h) in
        let (d, there, named) = index_of_lem name es found in (d, rw (← at) there, named)
  ]
]

module _ (f : Float64) (es : List EncodingInfo) where
  open f use {F}

  -- One requested encoding, trimmed and not empty.
  pub weigh : F × ℕ → Text → F × ℕ
  weigh (maxq, maxq_idx) t = elim (index_of (coding t) es) [
    | none ↦ (maxq, maxq_idx)
    | some i ↦
        if prefers f (q_value f t) maxq i maxq_idx then (q_value f t, i) else (maxq, maxq_idx)
  ]

  pub weigh_all : F × ℕ → List Text → F × ℕ
  weigh_all best [] = best
  weigh_all best (t ∷ ts) = weigh_all (weigh best t) ts

  weigh_all-append :
      (best : F × ℕ) (ts us : List Text)
      → weigh_all best (ts ++ us) ≡ weigh_all (weigh_all best ts) us
  unfolding weigh_all
  weigh_all-append best [] us = refl
  weigh_all-append best (t ∷ ts) us = weigh_all-append (weigh best t) ts us

  items_loop-keep :
      (best : F × ℕ) (ts : List Text) → items_loop f es best ts ≡ weigh_all best (keep ts)
  unfolding items_loop weigh_all keep weigh
  items_loop-keep best [] = refl
  items_loop-keep best (t ∷ ts) = elim (Bool-cases (text_eq (trim_space t) [])) [
    | inl empty ↦ rw (items_loop-keep (consider f es best t) ts) (rw empty)
    | inr full ↦ rw (items_loop-keep (consider f es best t) ts) (rw full)
  ]

  -- The nested loops are one loop over the items of all headers, in order.
  pub headers_loop-items :
      (best : F × ℕ) (hs : List Text) → headers_loop f es best hs ≡ weigh_all best (items hs)
  unfolding headers_loop items weigh_all header_items
  headers_loop-items best [] = refl
  headers_loop-items best (h ∷ hs) = elim (Bool-cases (text_eq (trim_space h) [])) [
    | inl empty ↦ rw empty (headers_loop-items best hs)
    | inr full ↦
        rw (full, items_loop-keep)
          (headers_loop-items (weigh_all best (keep (split b',' (trim_space h)))) hs
            ∙ sym (weigh_all-append best (keep _) (items hs)))
  ]

  -- One item that names an encoding of the file.
  pub weigh_all-single :
      (maxq : F) (k : ℕ) (t : Text) {i : ℕ}
      → index_of (coding t) es ≡ some i
      → weigh_all (maxq, k) (t ∷ [])
        ≡ (if prefers f (q_value f t) maxq i k then (q_value f t, i) else (maxq, k))
  unfolding weigh_all weigh prefers
  weigh_all-single maxq k t h = rw (weigh, h)

  weigh-index {κ} :
      (P : ℕ → Type κ) (t : Text) (best : F × ℕ)
      → P best.1
      → ((i : ℕ) → index_of (coding t) es ≡ some i → P i)
      → P (weigh best t).1
  unfolding weigh
  weigh-index P t best p h = elim (Option-cases (index_of (coding t) es)) [
    | inl missing ↦ rw (missing, weigh) p
    | inr (i, found) ↦ elim (Bool-cases (prefers f (q_value f t) best.0 i best.1)) [
      | inl better ↦ rw (found, weigh, better) (h i found)
      | inr worse ↦ rw (found, weigh, worse) p
    ]
  ]

  -- What holds of the index at the start and of each index that an item names holds at the end.
  pub weigh_all-index {κ} :
      (P : ℕ → Type κ) (ts : List Text) (best : F × ℕ)
      → P best.1
      → All (λ t. (i : ℕ) → index_of (coding t) es ≡ some i → P i) ts
      → P (weigh_all best ts).1
  unfolding weigh_all
  weigh_all-index P [] best p h = p
  weigh_all-index P (t ∷ ts) best p (ht, hs) =
      weigh_all-index P ts (weigh best t) (weigh-index P t best p ht) hs
