-- ===== src/Http.antt =====
-- What the program uses of Go's package net/http: header maps, a response writer, `http.Error`.
use xtemplate.Prelude.{
  ℕ, ◌+◌, ◌-◌, Bool, true, ◌||◌, ◌&&◌, Option, none, some, List, [], ◌∷◌, ◌++◌, Text, codes,
  text_eq, leb, if◌then◌else◌, any, all, ◌==◌,
}

-- `http.Header`, a map from canonical names to values
abbrev pub Header : Type 0
Header = List (Text × List Text)

-- A character of a header name (RFC 9110, token).
is_token : ℕ → Bool
is_token c =
    (leb b'a' c && leb c b'z')
    || (leb b'A' c && leb c b'Z')
    || (leb b'0' c && leb c b'9')
    || any (λ d. c == d) (codes "!#$%&'*+-.^_`|~")

upper : ℕ → ℕ
upper c = if leb b'a' c && leb c b'z' then c - 32 else c

lower : ℕ → ℕ
lower c = if leb b'A' c && leb c b'Z' then c + 32 else c

recase : Bool → Text → Text
unfolding upper lower
recase start [] = []
recase start (c ∷ s) = (if start then upper c else lower c) ∷ recase (c == b'-') s

-- `textproto.CanonicalMIMEHeaderKey`
unfoldable pub canonical : Text → Text
unfolding recase is_token
canonical s = if all is_token s then recase true s else s

-- `m[k] = v`
unfoldable pub put : Text → List Text → Header → Header
unfolding text_eq
put k v [] = (k, v) ∷ []
put k v ((j, w) ∷ h) = if text_eq j k then (k, v) ∷ h else (j, w) ∷ put k v h

unfoldable pub values : Text → Header → List Text
unfolding text_eq
values k [] = []
values k ((j, w) ∷ h) = if text_eq j k then w else values k h

unfoldable pub remove : Text → Header → Header
unfolding text_eq
remove k [] = []
remove k ((j, w) ∷ h) = let rest = remove k h in if text_eq j k then rest else (j, w) ∷ rest

-- `Header.Set`, `Header.Add` and `Header.Del`
unfoldable pub header_set : Text → Text → Header → Header
unfolding put canonical
header_set k v h = put (canonical k) (v ∷ []) h

unfoldable pub header_add : Text → Text → Header → Header
unfolding put values canonical
header_add k v h = put (canonical k) (values (canonical k) h ++ v ∷ []) h

unfoldable pub header_del : Text → Header → Header
unfolding remove canonical
header_del k h = remove (canonical k) h

-- `maps.Copy(dst, src)`, at the source's entries in their order
unfoldable pub copy : Header → Header → Header
unfolding put
copy dst [] = dst
copy dst ((k, v) ∷ src) = copy (put k v dst) src

-- A response writer. `sent` is the status and the header at the first `WriteHeader`, which later
-- calls do not change.
pub record Response : Type 0 where
  pub header : Header
  pub sent : Option (ℕ × Header)
  pub body : Text
  pub flushes : ℕ

abbrev pub no_response : Response
no_response = record { header = []; sent = none; body = []; flushes = 0 }

unfoldable pub write_header : ℕ → Response → Response
write_header code w = elim w.sent [ none ↦ record w { sent = some (code, w.header) } | some s ↦ w ]

unfoldable pub write : Text → Response → Response
unfolding write_header
write b w = let w' = write_header 200 w in record w' { body = w'.body ++ b }

-- `Flush` sends the header if it was not sent.
unfoldable pub flush : Response → Response
unfolding write_header
flush w = let w' = write_header 200 w in record w' { flushes = w'.flushes + 1 }

abbrev pub error_header : Header → Header
unfolding header_set
error_header h =
    header_set (codes "X-Content-Type-Options") (codes "nosniff")
      (header_set (codes "Content-Type") (codes "text/plain; charset=utf-8") h)

-- `http.Error(w, msg, code)`
unfoldable pub http_error : Text → ℕ → Response → Response
unfolding write write_header header_set
http_error msg code w =
    write (msg ++ 10 ∷ []) (write_header code (record w { header = error_header w.header }))
