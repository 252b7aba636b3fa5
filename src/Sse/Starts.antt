-- ===== src/Sse/Starts.antt =====
-- The status and the header of a response to which `SendSSE` of dot_flush.go sends.
use xtemplate.Prelude.{
  ℕ, ◌≡◌, refl, arith, Bool-cases, inl, inr, Option, none, some, Option-cases, List, [], ◌∷◌, Text,
}
use xtemplate.Prelude.Errors.{Error}
use xtemplate.Http.{Header, Response, write_header, write, flush}
use xtemplate.Sse.{Message, message_of, fields_text, written, send_message, send_sse}
use xtemplate.Sse.Sequences.{next_call, send_all}

-- A response whose header goes out with 200, or went out.
unfoldable pub Started : Header → Response → Type 0
Started h w = (w.header ≡ h) × ((write_header 200 w).sent ≡ some (200, h))

pub unsent-Started : (w : Response) → w.sent ≡ none → Started w.header w
unfolding Started write_header
unsent-Started w unsent = (refl, rw unsent refl)

write-Started : (h : Header) (b : Text) (w : Response) → Started h w → Started h (write b w)
unfolding Started write write_header
write-Started h b w (same, s) = elim (Option-cases w.sent) [
  | inl unsent ↦ ground (arith, same, s, unsent)
  | inr (a, sent) ↦ ground (arith, same, s, sent)
]

pub flush-Started :
    (h : Header) (w : Response)
    → Started h w
    → Started h (flush w) × ((flush w).sent ≡ some (200, h))
unfolding Started flush write_header
flush-Started h w (same, s) = elim (Option-cases w.sent) [
  | inl unsent ↦ ground (arith, same, s, unsent)
  | inr (a, sent) ↦ ground (arith, same, s, sent)
]

send_message-Started :
    (h : Header) (m : Message) (w : Response) → Started h w → Started h (send_message m w)
unfolding send_message
send_message-Started h m w s = elim (Bool-cases (written m)) [
  | inr empty ↦ rw (send_message, empty) s
  | inl some_field ↦
      rw (send_message, some_field)
        (flush-Started h (write (10 ∷ 10 ∷ []) (write (fields_text m) w)) (
          write-Started h (10 ∷ 10 ∷ []) (write (fields_text m) w)
            (write-Started h (fields_text m) w s))).0
]

send_sse-Started :
    (h : Header) (args : List Text) (w : Response) → Started h w → Started h (send_sse args w).0
unfolding send_sse
send_sse-Started h args w s = elim (Option-cases (message_of args)) [
  | inl wrong ↦ rw (send_sse, wrong) s
  | inr (m, is) ↦ rw (send_sse, is) (send_message-Started h m w s)
]

next_call-Started :
    (h : Header) (rest : Response → Response × Option Error) (r : Response × Option Error)
    → ((w : Response) → Started h w → Started h (rest w).0)
    → Started h r.0
    → Started h (next_call rest r).0
unfolding next_call
next_call-Started h rest (w, none) ih s = ih w s
next_call-Started h rest (w, some e) ih s = s

-- The calls leave the header that goes out with the first of them, with the status 200.
pub send_all-Started :
    (h : Header) (calls : List (List Text)) (w : Response)
    → Started h w
    → Started h (send_all calls w).0
unfolding send_all
send_all-Started h [] w s = s
send_all-Started h (args ∷ calls) w s =
    next_call-Started h (send_all calls) (send_sse args w) (λ u. send_all-Started h calls u)
      (send_sse-Started h args w s)

-- A header that went out is the one that is set, with the status 200.
pub sent-Started :
    (h : Header) (w : Response) (s : ℕ × Header)
    → Started h w
    → w.sent ≡ some s
    → w.sent ≡ some (200, h)
unfolding Started write_header
sent-Started h w s (same, started) sent = ground (arith, started, sent)
