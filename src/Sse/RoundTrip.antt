-- ===== src/Sse/RoundTrip.antt =====
-- A client reads what `SendSSE` of dot_flush.go writes as the event that was meant.
use xtemplate.Prelude.{
  ℕ, ◌≡◌, ◌≢◌, refl, ◌∙◌, ap, arith, Option, none, some, List, [], ◌∷◌, ◌++◌, Text, codes, All,
  All-append, append_assoc, append-nil, if◌then◌else◌, Bool-cases, inl, inr,
}
use xtemplate.Strings.{split}
use xtemplate.Sse.{Message, first_line, field_line, data_lines, data_field, fields_text}
use xtemplate.Sse.Stream.{
  Event, Buffers, no_buffers, add_data, not_nul, kind_or_message, dispatch, store, split_field,
  end_line, read, read_stream, NoCr, NoLf, unify_breaks-NoCr, read-line,
}
use xtemplate.Sse.Lines.{
  lf_lines, first_line-NoLf, first_line-NoCr, split-lf_lines, split-NoLf, split-All,
}

-- A line that `name`, with its colon and space, begins.
regroup : (name l r : Text) → (name ++ (l ++ 10 ∷ [])) ++ r ≡ (name ++ l) ++ 10 ∷ r
regroup name l r = simp append_assoc

read-named :
    (name l r : Text) (b : Buffers)
    → NoLf name
    → NoLf l
    → read [] ((name ++ (l ++ 10 ∷ [])) ++ r) b ≡ end_line (name ++ l) b (read [] r)
read-named name l r b hn hl =
    rw regroup (read-line [] (name ++ l) r b (All-append (λ c. c ≢ 10) name l hn hl))

unfoldable pub with_event : Text → Buffers → Buffers
with_event [] b = b
with_event (c ∷ s) b = record b { kind = first_line (c ∷ s) }

read-event :
    (s r : Text) (b : Buffers)
    → read [] (field_line (codes "event: ") s ++ r) b ≡ read [] r (with_event s b)
unfolding field_line with_event
read-event [] r b = refl
read-event (c ∷ s) r b =
    read-named (codes "event: ") (first_line (c ∷ s)) r b (omega arith) (first_line-NoLf (c ∷ s))
    ∙ (unfold end_line store split_field in refl)

add_lines : Option Text → List Text → Option Text
add_lines p [] = p
add_lines p (l ∷ ls) = add_lines (some (add_data p l)) ls

add_lines-some : (d : Text) (ls : List Text) → add_lines (some d) ls ≡ some (d ++ lf_lines ls)
unfolding add_lines add_data
add_lines-some d [] = rw append-nil
add_lines-some d (l ∷ ls) =
    add_lines-some (d ++ 10 ∷ l) ls ∙ ap some (append_assoc d (10 ∷ l) (lf_lines ls))

-- The data lines of a text are put together to the text.
add_lines-split : (s : Text) → add_lines none (split 10 s) ≡ some s
unfolding add_lines add_data
add_lines-split s = let (l, ls, p, q) = split-lf_lines s in rw p (add_lines-some l ls ∙ ap some q)

end_line-data :
    (l : Text) (b : Buffers) (rest : Buffers → List Event)
    → end_line (codes "data: " ++ l) b rest
      ≡ rest (record b { pending = some (add_data b.pending l) })
unfolding end_line store split_field
end_line-data l b rest = refl

read-data_lines :
    (ls : List Text) (r : Text) (b : Buffers)
    → All NoLf ls
    → read [] (data_lines ls ++ r) b ≡ read [] r (record b { pending = add_lines b.pending ls })
unfolding data_lines add_lines
read-data_lines [] r b h = refl
read-data_lines (l ∷ ls) r b (hl, hs) =
    ap (λ t. read [] t b) (append_assoc (codes "data: " ++ (l ++ 10 ∷ [])) (data_lines ls) r)
    ∙ read-named (codes "data: ") l (data_lines ls ++ r) b (omega arith) hl
    ∙ end_line-data l b (read [] (data_lines ls ++ r))
    ∙ read-data_lines ls r (record b { pending = some (add_data b.pending l) }) hs

unfoldable pub with_data : Text → Buffers → Buffers
with_data [] b = b
with_data (c ∷ s) b = record b { pending = some (c ∷ s) }

read-data_field :
    (s r : Text) (b : Buffers)
    → b.pending ≡ none
    → read [] (data_field s ++ r) b ≡ read [] r (with_data s b)
unfolding data_field with_data
read-data_field [] r b h = refl
read-data_field (c ∷ s) r b h =
    read-data_lines (split 10 (c ∷ s)) r b (split-NoLf (c ∷ s))
    ∙ ap (λ (p : Option Text). read [] r (record b { pending = p }))
        (ap (λ p. add_lines p (split 10 (c ∷ s))) h ∙ add_lines-split (c ∷ s))

unfoldable pub with_id : Text → Buffers → Buffers
with_id [] b = b
with_id (c ∷ s) b =
    if not_nul (first_line (c ∷ s)) then record b { last_id = first_line (c ∷ s) } else b

read-id :
    (s r : Text) (b : Buffers)
    → read [] (field_line (codes "id: ") s ++ r) b ≡ read [] r (with_id s b)
unfolding field_line with_id
read-id [] r b = refl
read-id (c ∷ s) r b =
    read-named (codes "id: ") (first_line (c ∷ s)) r b (omega arith) (first_line-NoLf (c ∷ s))
    ∙ (unfold end_line store split_field in refl)

read-retry :
    (s r : Text) (b : Buffers) → read [] (field_line (codes "retry: ") s ++ r) b ≡ read [] r b
unfolding field_line
read-retry [] r b = refl
read-retry (c ∷ s) r b =
    read-named (codes "retry: ") (first_line (c ∷ s)) r b (omega arith) (first_line-NoLf (c ∷ s))
    ∙ (unfold end_line store split_field in refl)

-- The event that a message stands for: none without data; else of the kind in the first line of
-- `event`, with the whole of `data`, and with the first line of `id` if it holds no NUL.
abbrev id_of : Text → Text
id_of i = if not_nul (first_line i) then first_line i else []

abbrev pub meant_of : Text → Text → Text → List Event
meant_of e [] i = []
meant_of e (c ∷ s) i =
    record { kind = kind_or_message (first_line e); content = c ∷ s; last_id = id_of i } ∷ []

abbrev pub meant : Message → List Event
meant m = meant_of m.event m.content m.id

read-blank : (b : Buffers) → read [] (10 ∷ 10 ∷ []) b ≡ dispatch b []
unfolding read end_line dispatch
read-blank b = refl

pending-with_event : (s : Text) (b : Buffers) → (with_event s b).pending ≡ b.pending
unfolding with_event
pending-with_event [] b = refl
pending-with_event (c ∷ s) b = refl

regroup_fields : (a b c d r : Text) → (a ++ (b ++ (c ++ d))) ++ r ≡ a ++ (b ++ (c ++ (d ++ r)))
regroup_fields a b c d r = simp append_assoc

pub read-fields :
    (m : Message) (r : Text) (b : Buffers)
    → b.pending ≡ none
    → read [] (fields_text m ++ r) b
      ≡ read [] r (with_id m.id (with_data m.content (with_event m.event b)))
unfolding fields_text
read-fields m r b h =
    let b1 = with_event m.event b in
    let b2 = with_data m.content b1 in
    let retry : Text = field_line (codes "retry: ") m.retry ++ r in
    let id : Text = field_line (codes "id: ") m.id ++ retry in
    ap (λ t. read [] t b)
      (regroup_fields (field_line (codes "event: ") m.event) (data_field m.content)
        (field_line (codes "id: ") m.id) (field_line (codes "retry: ") m.retry) r)
    ∙ read-event m.event (data_field m.content ++ id) b
    ∙ read-data_field m.content id b1 (pending-with_event m.event b ∙ h)
    ∙ read-id m.id retry b2
    ∙ read-retry m.retry r (with_id m.id b2)

dispatch-meant_of :
    (e d i : Text)
    → dispatch (with_id i (with_data d (with_event e no_buffers))) [] ≡ meant_of e d i
unfolding dispatch with_id with_data with_event not_nul
dispatch-meant_of [] [] [] = refl
dispatch-meant_of [] [] (a ∷ i) = ground arith
dispatch-meant_of (b ∷ e) [] [] = refl
dispatch-meant_of (b ∷ e) [] (a ∷ i) = ground arith
dispatch-meant_of [] (c ∷ d) [] = unfold first_line kind_or_message in refl
dispatch-meant_of [] (c ∷ d) (a ∷ i) = elim (Bool-cases (not_nul (first_line (a ∷ i)))) [
  | inl plain ↦ unfold first_line in ground (arith, plain)
  | inr nul ↦ unfold first_line in ground (arith, nul)
]
dispatch-meant_of (b ∷ e) (c ∷ d) [] = unfold first_line in refl
dispatch-meant_of (b ∷ e) (c ∷ d) (a ∷ i) = ground arith

-- No CR in what is written, if there is none in the message.
field_line-NoCr : (name s : Text) → NoCr name → NoCr s → NoCr (field_line name s)
unfolding field_line
field_line-NoCr name [] hn hs = tt
field_line-NoCr name (c ∷ s) hn hs =
    All-append (λ d. d ≢ 13) name (first_line (c ∷ s) ++ 10 ∷ []) hn
      (All-append (λ d. d ≢ 13) (first_line (c ∷ s)) (10 ∷ []) (first_line-NoCr (c ∷ s) hs)
        (omega arith))

data_lines-NoCr : (ls : List Text) → All NoCr ls → NoCr (data_lines ls)
unfolding data_lines
data_lines-NoCr [] h = tt
data_lines-NoCr (l ∷ ls) (hl, hs) =
    All-append (λ d. d ≢ 13) (codes "data: " ++ (l ++ 10 ∷ [])) (data_lines ls)
      (All-append (λ d. d ≢ 13) (codes "data: ") (l ++ 10 ∷ []) (omega arith)
        (All-append (λ d. d ≢ 13) l (10 ∷ []) hl (omega arith)))
      (data_lines-NoCr ls hs)

data_field-NoCr : (s : Text) → NoCr s → NoCr (data_field s)
unfolding data_field
data_field-NoCr [] h = tt
data_field-NoCr (c ∷ s) h = data_lines-NoCr (split 10 (c ∷ s)) (split-All (λ d. d ≢ 13) (c ∷ s) h)

abbrev pub MessageNoCr : Message → Type 0
MessageNoCr m = NoCr m.event × NoCr m.content × NoCr m.id × NoCr m.retry

unfoldable pub stream_text : Message → Text
stream_text m = fields_text m ++ 10 ∷ 10 ∷ []

pub stream_text-NoCr : (m : Message) → MessageNoCr m → NoCr (stream_text m)
unfolding fields_text stream_text
stream_text-NoCr m (he, hd, hi, hr) =
    let P = λ (d : ℕ). d ≢ 13 in
    let retry = field_line-NoCr (codes "retry: ") m.retry (omega arith) hr in
    let id = field_line-NoCr (codes "id: ") m.id (omega arith) hi in
    let event = field_line-NoCr (codes "event: ") m.event (omega arith) he in
    All-append P (fields_text m) (10 ∷ 10 ∷ [])
      (All-append P (field_line (codes "event: ") m.event) _ event (
        All-append P (data_field m.content) _ (data_field-NoCr m.content hd)
          (All-append P (field_line (codes "id: ") m.id) _ id retry)))
      (omega arith)

-- A client reads what `SendSSE` writes for a message as the event that the message stands for.
pub read-stream_text : (m : Message) → MessageNoCr m → read_stream (stream_text m) ≡ meant m
unfolding read_stream stream_text
read-stream_text m h =
    ap (λ t. read [] t no_buffers)
      (unify_breaks-NoCr (fields_text m ++ 10 ∷ 10 ∷ [])
        (unfold stream_text in stream_text-NoCr m h))
    ∙ read-fields m (10 ∷ 10 ∷ []) no_buffers refl
    ∙ read-blank _
    ∙ dispatch-meant_of m.event m.content m.id
