-- ===== src/Sse.antt =====
-- dot_flush.go, `SendSSE`: a message of an event stream.
pub mod Stream
pub mod Lines
pub mod RoundTrip
pub mod Laws
pub mod Sequences
pub mod Starts
mod Tests
use xtemplate.Prelude.{
  ℕ, Bool, true, false, ◌||◌, Option, none, some, List, [], ◌∷◌, ◌++◌, Text, codes, length, ◌==◌,
  if◌then◌else◌,
}
use xtemplate.Prelude.Errors.{Error, errorf, int}
use xtemplate.Http.{Response, write, flush}
use xtemplate.Strings.{split}

-- `strings.SplitN(s, "\n", 2)[0]`
pub first_line : Text → Text
first_line [] = []
first_line (c ∷ s) = let rest = first_line s in if c == 10 then [] else c ∷ rest

-- The arguments event, data, id and retry; those that are not given are empty.
pub record Message : Type 0 where
  pub event : Text
  pub content : Text
  pub id : Text
  pub retry : Text

-- The switch on `len(args)`; each case falls through to the next.
unfoldable pub message_of : List Text → Option Message
message_of (e ∷ []) = some (record { event = e; content = []; id = []; retry = [] })
message_of (e ∷ d ∷ []) = some (record { event = e; content = d; id = []; retry = [] })
message_of (e ∷ d ∷ i ∷ []) = some (record { event = e; content = d; id = i; retry = [] })
message_of (e ∷ d ∷ i ∷ r ∷ []) = some (record { event = e; content = d; id = i; retry = r })
message_of _ = none

-- `if s != "" { fmt.Fprintf(f.flusher, "name: %s\n", first line of s); written = true }`
pub field_line : Text → Text → Text
unfolding first_line
field_line name [] = []
field_line name (c ∷ s) = name ++ (first_line (c ∷ s) ++ 10 ∷ [])

pub data_lines : List Text → Text
data_lines [] = []
data_lines (line ∷ lines) = (codes "data: " ++ (line ++ 10 ∷ [])) ++ data_lines lines

pub data_field : Text → Text
unfolding data_lines split
data_field [] = []
data_field (c ∷ s) = data_lines (split 10 (c ∷ s))

-- What is written before `if written`.
pub fields_text : Message → Text
unfolding field_line data_field
fields_text m =
    field_line (codes "event: ") m.event
    ++ (data_field m.content
        ++ (field_line (codes "id: ") m.id ++ field_line (codes "retry: ") m.retry))

pub is_set : Text → Bool
is_set [] = false
is_set (c ∷ s) = true

unfoldable pub written : Message → Bool
unfolding is_set
written m = is_set m.event || is_set m.content || is_set m.id || is_set m.retry

pub send_message : Message → Response → Response
unfolding written
send_message m w = if written m then flush (write (10 ∷ 10 ∷ []) (write (fields_text m) w)) else w

unfoldable pub send_sse : List Text → Response → Response × Option Error
unfolding message_of send_message
send_sse args w = elim (message_of args) [
  | none ↦
      (w, some (errorf "wrong number of args provided. got %d, need 1-4" (int (length args) ∷ [])))
  | some m ↦ (send_message m w, none)
]
