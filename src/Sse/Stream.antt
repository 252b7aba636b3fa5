-- ===== src/Sse/Stream.antt =====
-- How a client reads an event stream (WHATWG HTML, section 9.2.6), for the messages of Sse.
use xtemplate.Prelude.{
  ◌≡◌, ◌≢◌, refl, arith, All, append-nil, append_assoc, Bool, true, false, ◌&&◌, Option, none, some,
  List, [], ◌∷◌, ◌++◌, Text, codes, text_eq, any, ◌==◌, if◌then◌else◌,
}

pub record Event : Type 0 where
  pub kind : Text
  pub content : Text
  pub last_id : Text

-- CR and CR LF end a line like LF: the flag says that the last code point was a CR.
unfoldable pub unify_breaks : Bool → Text → Text
unify_breaks after_cr [] = []
unify_breaks after_cr (c ∷ s) =
    let as_break = 10 ∷ unify_breaks true s in
    let skipped = unify_breaks false s in
    let kept = c ∷ unify_breaks false s in
    if c == 13 then as_break else if c == 10 && after_cr then skipped else kept

-- The buffers of the client; `pending` holds the data lines.
pub record Buffers : Type 0 where
  pub kind : Text
  pub pending : Option Text
  pub last_id : Text

unfoldable pub add_data : Option Text → Text → Text
add_data none v = v
add_data (some d) v = d ++ 10 ∷ v

drop_space : Text → Text
drop_space [] = []
drop_space (c ∷ s) = if c == 32 then s else c ∷ s

-- The name before the first colon, and the value behind it without one leading space.
unfoldable pub split_field : Text → Text → Text × Text
unfolding drop_space
split_field name [] = (name, [])
split_field name (c ∷ s) =
    let rest = split_field (name ++ c ∷ []) s in if c == 58 then (name, drop_space s) else rest

unfoldable pub not_nul : Text → Bool
not_nul s = if any (λ c. c == 0) s then false else true

set_kind : Text → Buffers → Buffers
set_kind v b = record b { kind = v }

-- One field; `retry` and unknown names change nothing that an event shows.
unfoldable pub store : Text × Text → Buffers → Buffers
unfolding add_data not_nul text_eq
store (name, v) b =
    if text_eq name (codes "event")
    then record b { kind = v }
    else if text_eq name (codes "data")
    then record b { pending = some (add_data b.pending v) }
    else if text_eq name (codes "id") && not_nul v
    then record b { last_id = v }
    else b

unfoldable pub kind_or_message : Text → Text
kind_or_message [] = codes "message"
kind_or_message (c ∷ s) = c ∷ s

-- An empty line: an event, if there is data, and empty buffers but for the id.
unfoldable pub dispatch : Buffers → List Event → List Event
unfolding kind_or_message
dispatch b events = elim b.pending [
  | none ↦ events
  | some d ↦ record { kind = kind_or_message b.kind; content = d; last_id = b.last_id } ∷ events
]

abbrev pub reset : Buffers → Buffers
reset b = record b { kind = []; pending = none }

unfoldable pub end_line : Text → Buffers → (Buffers → List Event) → List Event
unfolding dispatch store split_field
end_line [] b rest = dispatch b (rest (reset b))
end_line (c ∷ line) b rest = rest (store (split_field [] (c ∷ line)) b)

-- The code points one after another; a line that does not end is not read.
unfoldable pub read : Text → Text → Buffers → List Event
unfolding end_line
read line [] b = []
read line (c ∷ s) b =
    let ended = end_line line b (read [] s) in
    let longer = read (line ++ c ∷ []) s b in if c == 10 then ended else longer

abbrev pub no_buffers : Buffers
no_buffers = record { kind = []; pending = none; last_id = [] }

unfoldable pub read_stream : Text → List Event
unfolding read unify_breaks
read_stream s = read [] (unify_breaks false s) no_buffers

two_events :
    read_stream (
      codes "data: a" ++ 13 ∷ 10 ∷ (codes "data:b" ++ 10 ∷ 10 ∷ (codes "event: x" ++ 10 ∷ 10 ∷ [])))
    ≡ record { kind = codes "message"; content = codes "a" ++ 10 ∷ codes "b"; last_id = [] } ∷ []
unfolding read_stream
two_events = refl

-- A text with no CR is read as it stands.
abbrev pub NoCr : Text → Type 0
NoCr = All (λ c. c ≢ 13)

pub unify_breaks-NoCr : (s : Text) → NoCr s → unify_breaks false s ≡ s
unfolding unify_breaks
unify_breaks-NoCr [] h = refl
unify_breaks-NoCr (c ∷ s) (ne, h) = ground (arith, unify_breaks-NoCr s h)

abbrev pub NoLf : Text → Type 0
NoLf = All (λ c. c ≢ 10)

-- A line with its end is read as one line.
pub read-line :
    (line l r : Text) (b : Buffers)
    → NoLf l
    → read line (l ++ 10 ∷ r) b ≡ end_line (line ++ l) b (read [] r)
unfolding read
read-line line [] r b h = rw append-nil refl
read-line line (c ∷ l) r b (ne, h) =
    let ih = read-line (line ++ c ∷ []) l r b h in ground (arith, ih, append_assoc line (c ∷ []) l)
