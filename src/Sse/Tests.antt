-- ===== src/Sse/Tests.antt =====
-- Messages, and the theorems of Sse/Laws at them.
use xtemplate.Prelude.{◌≡◌, refl, arith, none, List, [], ◌∷◌, ◌++◌, Text, codes}
use xtemplate.Http.{no_response}
use xtemplate.Sse.{Message, message_of, send_sse}
use xtemplate.Sse.Stream.{read_stream}
use xtemplate.Sse.Sequences.{send_all, meant_all, send_all_read}

abbrev two_lines : Text
two_lines = codes "a" ++ 10 ∷ codes "b"

abbrev args : List Text
args = codes "tick" ∷ two_lines ∷ []

abbrev tick : Message
tick = record { event = codes "tick"; content = two_lines; id = []; retry = [] }

tick_sent :
    (send_sse args no_response).0.body
    ≡ codes "event: tick" ++ 10 ∷ (codes "data: a" ++ 10 ∷ (codes "data: b" ++ 10 ∷ 10 ∷ 10 ∷ []))
unfolding send_sse xtemplate.Http.flush xtemplate.Http.write xtemplate.Sse.fields_text
tick_sent = refl

-- The second call has no id of its own.
abbrev two_calls : List (List Text)
two_calls = (codes "tick" ∷ two_lines ∷ codes "7" ∷ []) ∷ ([] ∷ codes "c" ∷ []) ∷ []

abbrev two_messages : List Message
two_messages =
    record { event = codes "tick"; content = two_lines; id = codes "7"; retry = [] }
    ∷ record { event = []; content = codes "c"; id = []; retry = [] }
    ∷ []

two_meant :
    meant_all [] two_messages
    ≡ record { kind = codes "tick"; content = two_lines; last_id = codes "7" }
      ∷ record { kind = codes "message"; content = codes "c"; last_id = codes "7" }
      ∷ []
unfolding meant_all xtemplate.Sse.Stream.kind_or_message xtemplate.Sse.Stream.not_nul
    xtemplate.Sse.first_line
two_meant = refl

send_all_read_example :
    (t : Text) × ((send_all two_calls no_response).1 ≡ none)
    × ((send_all two_calls no_response).0.body ≡ t)
    × (read_stream t ≡ meant_all [] two_messages)
unfolding message_of
send_all_read_example =
    send_all_read two_calls two_messages no_response refl ((omega arith), ((omega arith), tt))
