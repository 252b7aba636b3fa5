-- ===== src/Sse/Lines.antt =====
-- The lines into which SendSSE of dot_flush.go splits a text.
use xtemplate.Prelude.{
  ℕ, ◌≡◌, ◌≢◌, refl, ap, arith, List, [], ◌∷◌, ◌++◌, Text, All, ◌==◌, Bool-cases, inl, inr,
}
use xtemplate.Strings.{split, cons_head}
use xtemplate.Sse.{first_line}
use xtemplate.Sse.Stream.{NoCr, NoLf}

pub first_line-NoLf : (s : Text) → NoLf (first_line s)
unfolding first_line
first_line-NoLf [] = tt
first_line-NoLf (c ∷ s) = ground (arith, first_line-NoLf s)

pub first_line-NoCr : (s : Text) → NoCr s → NoCr (first_line s)
unfolding first_line
first_line-NoCr [] h = tt
first_line-NoCr (c ∷ s) (ne, h) = ground (arith, first_line-NoCr s h)

-- What the lines behind the first add to the data.
abbrev pub lf_lines : List Text → Text
lf_lines [] = []
lf_lines (l ∷ ls) = 10 ∷ (l ++ lf_lines ls)

pub split-lf_lines :
    (s : Text) → (l : Text) × (ls : List Text) × (split 10 s ≡ l ∷ ls) × (l ++ lf_lines ls ≡ s)
unfolding split
split-lf_lines [] = ([], [], refl, refl)
split-lf_lines (c ∷ s) =
    let (l, ls, p, q) = split-lf_lines s in
    elim (Bool-cases (c == 10)) [
      | inl lf ↦ ([], l ∷ ls, ground (arith, lf, p), ground (arith, lf, q))
      | inr other ↦ (c ∷ l, ls, ground (arith, other, p), ap (λ t. c ∷ t) q)
    ]

cons_head-NoLf : (c : ℕ) (ws : List Text) → c ≢ 10 → All NoLf ws → All NoLf (cons_head c ws)
cons_head-NoLf c [] ne h = ((ne, tt), tt)
cons_head-NoLf c (w ∷ ws) ne (hw, hs) = ((ne, hw), hs)

pub split-NoLf : (s : Text) → All NoLf (split 10 s)
unfolding split
split-NoLf [] = (tt, tt)
split-NoLf (c ∷ s) = elim (Bool-cases (c == 10)) [
  | inl lf ↦ rw lf (tt, split-NoLf s)
  | inr other ↦ rw other (cons_head-NoLf c (split 10 s) (ground (arith, other)) (split-NoLf s))
]

cons_head-All {κ} :
    (P : ℕ → Type κ) (c : ℕ) (ws : List Text) → P c → All (All P) ws → All (All P) (cons_head c ws)
cons_head-All P c [] p h = ((p, tt), tt)
cons_head-All P c (w ∷ ws) p (hw, hs) = ((p, hw), hs)

pub split-All {κ} : (P : ℕ → Type κ) (s : Text) → All P s → All (All P) (split 10 s)
unfolding split
split-All P [] h = (tt, tt)
split-All P (c ∷ s) (p, h) = elim (Bool-cases (c == 10)) [
  | inl lf ↦ rw lf (tt, split-All P s h)
  | inr other ↦ rw other (cons_head-All P c (split 10 s) p (split-All P s h))
]
