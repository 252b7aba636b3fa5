-- ===== src/Sse/Sequences.antt =====
-- What several calls of `SendSSE` of dot_flush.go send, one after another.
use xtemplate.Prelude.{
  ◌≡◌, ◌≢◌, refl, ◌∙◌, ap, arith, false, Option, none, some, List, [], ◌∷◌, ◌++◌, Text, map, All,
  All-append, append-nil, append_assoc, Bool-cases, inl, inr, if◌then◌else◌,
}
use xtemplate.Prelude.Errors.{Error}
use xtemplate.Http.{Response}
use xtemplate.Sse.{
  Message, message_of, first_line, send_sse, send_message, written, is_set, fields_text,
}
use xtemplate.Sse.Stream.{
  Event, Buffers, no_buffers, not_nul, kind_or_message, dispatch, end_line, read, read_stream, NoCr,
  unify_breaks-NoCr,
}
use xtemplate.Sse.RoundTrip.{
  MessageNoCr, stream_text, stream_text-NoCr, with_event, with_data, with_id, read-fields,
}
use xtemplate.Sse.Laws.{stream_part, body-send_message, empty_of_is_set}

unfoldable pub next_call :
    (Response → Response × Option Error) → Response × Option Error → Response × Option Error
next_call rest (w, none) = rest w
next_call rest (w, some e) = (w, some e)

-- The calls of a template, which ends at the first error.
unfoldable pub send_all : List (List Text) → Response → Response × Option Error
unfolding next_call
send_all [] w = (w, none)
send_all (args ∷ calls) w = next_call (send_all calls) (send_sse args w)

-- The id that the client knows after a message: an empty one, or one with NUL, changes nothing.
id_after : Text → Text → Text
id_after last [] = last
id_after last (c ∷ s) = if not_nul (first_line (c ∷ s)) then first_line (c ∷ s) else last

event_of : Text → Text → Text → List Event
event_of e [] last = []
event_of e (c ∷ s) last =
    record { kind = kind_or_message (first_line e); content = c ∷ s; last_id = last } ∷ []

-- The events that the messages stand for: each with data is one, with the id of the latest that has one.
unfoldable pub meant_all : Text → List Message → List Event
unfolding event_of id_after
meant_all last [] = []
meant_all last (m ∷ ms) =
    let last' = id_after last m.id in event_of m.event m.content last' ++ meant_all last' ms

-- The buffers between two messages.
abbrev known : Text → Buffers
known last = record { kind = []; pending = none; last_id = last }

read-blank_lines :
    (r : Text) (b : Buffers) → read [] (10 ∷ 10 ∷ r) b ≡ dispatch b (read [] r (known b.last_id))
unfolding read end_line dispatch
read-blank_lines r b = refl

with_id-id_after :
    (i : Text) (b : Buffers) → with_id i b ≡ record b { last_id = id_after b.last_id i }
unfolding with_id id_after
with_id-id_after [] b = refl
with_id-id_after (c ∷ s) b = elim (Bool-cases (not_nul (first_line (c ∷ s)))) [
  | inl plain ↦ rw plain refl
  | inr nul ↦ rw nul refl
]

-- A message's fields, with the blank lines behind them, are read as its event.
dispatch-event_of :
    (e d i last : Text) (rest : Text → List Event)
    → dispatch
        (with_id i (with_data d (with_event e (known last))))
        (rest (with_id i (with_data d (with_event e (known last)))).last_id)
      ≡ event_of e d (id_after last i) ++ rest (id_after last i)
unfolding dispatch with_data with_event event_of
dispatch-event_of [] [] i last rest = rw with_id-id_after refl
dispatch-event_of [] (c ∷ d) i last rest =
    unfold first_line kind_or_message in rw with_id-id_after refl
dispatch-event_of (b ∷ e) [] i last rest = rw with_id-id_after refl
dispatch-event_of (b ∷ e) (c ∷ d) i last rest =
    unfold first_line kind_or_message in rw with_id-id_after refl

read-stream_text-append :
    (m : Message) (r last : Text)
    → read [] (stream_text m ++ r) (known last)
      ≡ event_of m.event m.content (id_after last m.id) ++ read [] r (known (id_after last m.id))
unfolding stream_text
read-stream_text-append m r last =
    ap (λ t. read [] t (known last)) (append_assoc (fields_text m) (10 ∷ 10 ∷ []) r)
    ∙ read-fields m (10 ∷ 10 ∷ r) (known last) refl
    ∙ read-blank_lines r _
    ∙ dispatch-event_of m.event m.content m.id last (λ l. read [] r (known l))

read-stream_part-append :
    (m : Message) (r last : Text)
    → read [] (stream_part m ++ r) (known last)
      ≡ event_of m.event m.content (id_after last m.id) ++ read [] r (known (id_after last m.id))
unfolding stream_part
read-stream_part-append m r last = elim (Bool-cases (written m)) [
  | inl some_field ↦ rw some_field (read-stream_text-append m r last)
  | inr no_field ↦
      let no_data : is_set m.content ≡ false = unfold written in ground (arith, no_field) in
      let no_id : is_set m.id ≡ false = unfold written in ground (arith, no_field) in
      rw no_field (
        unfold event_of id_after in
        rw (← empty_of_is_set m.content no_data, ← empty_of_is_set m.id no_id) refl)
]

stream_parts : List Message → Text
stream_parts [] = []
stream_parts (m ∷ ms) = stream_part m ++ stream_parts ms

stream_part-NoCr : (m : Message) → MessageNoCr m → NoCr (stream_part m)
unfolding stream_part
stream_part-NoCr m h = elim (Bool-cases (written m)) [
  | inl some_field ↦ rw some_field (stream_text-NoCr m h)
  | inr no_field ↦ rw no_field tt
]

stream_parts-NoCr : (ms : List Message) → All MessageNoCr ms → NoCr (stream_parts ms)
unfolding stream_parts
stream_parts-NoCr [] h = tt
stream_parts-NoCr (m ∷ ms) (h, hs) =
    All-append (λ d. d ≢ 13) (stream_part m) (stream_parts ms) (stream_part-NoCr m h)
      (stream_parts-NoCr ms hs)

read-stream_parts :
    (ms : List Message) (last : Text) → read [] (stream_parts ms) (known last) ≡ meant_all last ms
unfolding stream_parts meant_all
read-stream_parts [] last = unfold read in refl
read-stream_parts (m ∷ ms) last =
    read-stream_part-append m (stream_parts ms) last
    ∙ ap (λ l. event_of m.event m.content (id_after last m.id) ++ l)
        (read-stream_parts ms (id_after last m.id))

send_sse-message :
    (args : List Text) (m : Message) (w : Response)
    → message_of args ≡ some m
    → send_sse args w ≡ (send_message m w, none)
unfolding send_sse
send_sse-message args m w h = rw (send_sse, h) refl

-- Calls that stand for messages write these, one after another.
send_all-parts :
    (calls : List (List Text)) (ms : List Message) (w : Response)
    → map message_of calls ≡ map some ms
    → ((send_all calls w).1 ≡ none) × ((send_all calls w).0.body ≡ w.body ++ stream_parts ms)
unfolding send_all stream_parts next_call
send_all-parts [] [] w h = (refl, rw append-nil refl)
send_all-parts [] (m ∷ ms) w h = absurd (ground (arith, h))
send_all-parts (args ∷ calls) [] w h = absurd (ground (arith, h))
send_all-parts (args ∷ calls) (m ∷ ms) w h =
    let is = ap (next_call (send_all calls)) (send_sse-message args m w (ground (arith, h))) in
    let (fine, text) = send_all-parts calls ms (send_message m w) (ground (arith, h)) in
    (
      ap (λ r. r.1) is ∙ fine,
      (ap (λ r. r.0.body) is
          ∙ text
          ∙ ap (λ t. t ++ stream_parts ms) (body-send_message m w)
          ∙ append_assoc w.body (stream_part m) (stream_parts ms)),
    )

-- However many calls of `SendSSE` a template makes, each with one to four arguments without a CR: none
-- fails, and a client reads what they append to the response as one event for each call with data, in
-- the order of the calls, with the kind and the data that were given and the latest id, if any.
pub send_all_read :
    (calls : List (List Text)) (ms : List Message) (w : Response)
    → map message_of calls ≡ map some ms
    → All MessageNoCr ms
    → (t : Text) × ((send_all calls w).1 ≡ none)
      × ((send_all calls w).0.body ≡ w.body ++ t)
      × (read_stream t ≡ meant_all [] ms)
unfolding read_stream
send_all_read calls ms w h clean =
    let (fine, text) = send_all-parts calls ms w h in
    (
      stream_parts ms,
      fine,
      text,
      ap (λ t. read [] t no_buffers)
            (unify_breaks-NoCr (stream_parts ms) (stream_parts-NoCr ms clean))
          ∙ read-stream_parts ms [],
    )

-- A text behind the messages with which no event ends.
abbrev pub IsIgnored : Text → Type 0
IsIgnored r = NoCr r × ((last : Text) → read [] r (known last) ≡ [])

read-stream_parts_ignored :
    (ms : List Message) (r last : Text)
    → IsIgnored r
    → read [] (stream_parts ms ++ r) (known last) ≡ meant_all last ms
unfolding stream_parts meant_all
read-stream_parts_ignored [] r last (clean, none_) = none_ last
read-stream_parts_ignored (m ∷ ms) r last ignored =
    ap (λ t. read [] t (known last)) (append_assoc (stream_part m) (stream_parts ms) r)
    ∙ read-stream_part-append m (stream_parts ms ++ r) last
    ∙ ap (λ l. event_of m.event m.content (id_after last m.id) ++ l)
        (read-stream_parts_ignored ms r (id_after last m.id) ignored)

-- What is written behind the calls and ignored changes no event that a client reads.
pub send_all_ignored :
    (calls : List (List Text)) (ms : List Message) (w : Response) (r : Text)
    → map message_of calls ≡ map some ms
    → All MessageNoCr ms
    → IsIgnored r
    → (t : Text) × ((send_all calls w).0.body ≡ w.body ++ t)
      × (read_stream (t ++ r) ≡ meant_all [] ms)
unfolding read_stream
send_all_ignored calls ms w r h clean ignored =
    let (fine, text) = send_all-parts calls ms w h in
    let written =
      All-append (λ d. d ≢ 13) (stream_parts ms) r (stream_parts-NoCr ms clean) ignored.0 in
    (
      stream_parts ms,
      text,
      ap (λ t. read [] t no_buffers) (unify_breaks-NoCr (stream_parts ms ++ r) written)
          ∙ read-stream_parts_ignored ms r [] ignored,
    )
