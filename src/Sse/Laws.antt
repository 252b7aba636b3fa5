-- ===== src/Sse/Laws.antt =====
-- What `SendSSE` of dot_flush.go sends.
use xtemplate.Prelude.{
  ◌≡◌, refl, ◌∙◌, ap, arith, false, none, some, List, [], ◌∷◌, ◌++◌, Text, append-nil, append_assoc,
  Bool-cases, inl, inr, if◌then◌else◌,
}
use xtemplate.Http.{Response, write, write_header, flush}
use xtemplate.Sse.{Message, message_of, fields_text, written, is_set, send_message, send_sse}
use xtemplate.Sse.Stream.{read_stream}
use xtemplate.Sse.RoundTrip.{meant, meant_of, MessageNoCr, stream_text, read-stream_text}

unfoldable pub stream_part : Message → Text
unfolding stream_text
stream_part m = if written m then stream_text m else []

body-write : (b : Text) (w : Response) → (write b w).body ≡ w.body ++ b
unfolding write write_header
body-write b w = ground arith

pub body-flush : (w : Response) → (flush w).body ≡ w.body
unfolding flush write_header
body-flush w = ground arith

pub body-send_message :
    (m : Message) (w : Response) → (send_message m w).body ≡ w.body ++ stream_part m
unfolding send_message stream_part stream_text
body-send_message m w = elim (Bool-cases (written m)) [
  | inl some_field ↦ rw some_field (
      body-flush (write (10 ∷ 10 ∷ []) (write (fields_text m) w))
      ∙ body-write (10 ∷ 10 ∷ []) (write (fields_text m) w)
      ∙ ap (λ t. t ++ 10 ∷ 10 ∷ []) (body-write (fields_text m) w)
      ∙ append_assoc w.body (fields_text m) (10 ∷ 10 ∷ []))
  | inr no_field ↦ rw (no_field, append-nil) refl
]

pub empty_of_is_set : (s : Text) → is_set s ≡ false → [] ≡ s
unfolding is_set
empty_of_is_set [] h = refl
empty_of_is_set (c ∷ s) h = cc

read-stream_part : (m : Message) → MessageNoCr m → read_stream (stream_part m) ≡ meant m
unfolding stream_part
read-stream_part m h = elim (Bool-cases (written m)) [
  | inl some_field ↦ rw some_field (read-stream_text m h)
  | inr no_field ↦
      let unset : is_set m.content ≡ false = unfold written in ground (arith, no_field) in
      rw no_field
        (unfold read_stream in ap (λ d. meant_of m.event d m.id) (empty_of_is_set m.content unset))
]

-- `SendSSE` with one to four arguments, none of which holds a CR, returns no error and appends to
-- the response what a client reads as the message's event: of the kind in the first line of the
-- first argument, with all of the second as its data, and the first line of the third as its id;
-- and as no event at all if the second is empty or missing.
pub send_sse_read :
    (args : List Text) (m : Message) (w : Response)
    → message_of args ≡ some m
    → MessageNoCr m
    → (t : Text) × ((send_sse args w).1 ≡ none)
      × ((send_sse args w).0.body ≡ w.body ++ t)
      × (read_stream t ≡ meant m)
unfolding send_sse
send_sse_read args m w h clean = (
  stream_part m,
  rw (send_sse, h) refl,
  rw (send_sse, h) (body-send_message m w),
  read-stream_part m clean,
)
