-- ===== src/Handlers/Content.antt =====
-- `DotResp.ServeContent` of dot_resp.go, within a buffering template handler.
use xtemplate.Prelude.{
  ℕ, ◌≡◌, refl, ◌∙◌, arith, Option, none, some, List, [], ◌∷◌, ◌++◌, Text, length,
}
use xtemplate.Prelude.Errors.{Error, ok, return_error, as_return}
use xtemplate.Paths.{clean}
use xtemplate.Http.{Header, copy, write_header, write}
use xtemplate.Dot.{DotConfig, Pooled, make_dot, value}
use xtemplate.Dot.Aligned.{clean_pairs}
use xtemplate.Handlers.{
  DotResp, Value, x_value, req_value, resp_value, World, Execution, resp_cleanup, buffer_stack,
  buffering_template_handler, finish_buffering, send_header, after_world,
}
use xtemplate.Handlers.Buffering.{cleaned, buffering_finish}

-- The content: a string, an `io.ReadSeeker`, or a value of another type.
pub data Content : Type 0 where
  string : Text → Content
  reader : ℕ → Content
  other_value : Content

-- `maps.Copy(d.w.Header(), d.Header)`
abbrev copied : DotResp → World → World
copied d w = record w { response = record w.response { header = copy w.response.header d.header } }

-- With a value of another type the reader is nil, on which `http.ServeContent` panics. `serve` is
-- `http.ServeContent` on a request under way, with the cleaned path and the content.
unfoldable pub serve_content :
    (Text → Content → World → World) → Text → Content → DotResp → World → Option (World × Error)
serve_content serve path other_value d w = none
serve_content serve path body d w = some (serve (clean path) body (copied d w), return_error)

-- `http.ServeContent` answers a request that was not answered, with some status and header.
abbrev pub Answers : (Text → Content → World → World) → Type 0
Answers serve =
    (path : Text) (body : Content) (w : World)
    → w.response.sent ≡ none
    → (status : ℕ) × (header : Header) × ((serve path body w).response.sent ≡ some (status, header))

serve_content-Answers :
    (serve : Text → Content → World → World) (path : Text) (body : Content) (d : DotResp)
    (w served : World)
    → Answers serve
    → w.response.sent ≡ none
    → serve_content serve path body d w ≡ some (served, return_error)
    → (status : ℕ) × (header : Header) × (served.response.sent ≡ some (status, header))
unfolding serve_content
serve_content-Answers serve path other_value d w served answers fresh call =
    absurd (ground (arith, call))
serve_content-Answers serve path (string s) d w served answers fresh call =
    let (status, header, sent) = answers (clean path) (string s) (copied d w) fresh in
    (status, header, cc (sent, call))
serve_content-Answers serve path (reader s) d w served answers fresh call =
    let (status, header, sent) = answers (clean path) (reader s) (copied d w) fresh in
    (status, header, cc (sent, call))

module _ (execute : List Value → World → Execution) (mids : List (DotConfig World Value))
    (p q : Pooled World) (vs us : List Value) (r : DotResp)
    (made : value (make_dot (buffer_stack mids)) p ≡ (q, ok vs))
    (fields : (execute vs q.world).fields ≡ x_value ∷ req_value ∷ (us ++ resp_value r ∷ []))
    (fits : length us ≡ length mids) where
  -- If a template ends because `ServeContent` stopped it, no header having been sent before, and the
  -- cleanups of the configured providers end without an error and leave the response alone, then the
  -- answer has the status and the header that `http.ServeContent` sent: neither the status that the
  -- template set, nor the second copy of its headers in the cleanup changes them. The struct is back in
  -- the pool.
  pub content_stands :
      (serve : Text → Content → World → World) (path : Text) (body : Content)
      (before served w : World)
      → Answers serve
      → before.response.sent ≡ none
      → serve_content serve path body r before ≡ some (served, return_error)
      → (execute vs q.world).world ≡ served
      → (execute vs q.world).error ≡ some return_error
      → clean_pairs mids us (served, none) ≡ (w, none)
      → w.response ≡ served.response
      → (final : Pooled World) × (status : ℕ) × (header : Header) × (buffering_template_handler
            execute
            (make_dot (buffer_stack mids))
            p
          ≡ some final)
        × (served.response.sent ≡ some (status, header))
        × (final.world.response.sent ≡ some (status, header))
        × (final.taken ≡ p.taken)
  unfolding finish_buffering resp_cleanup write write_header as_return
  content_stands serve path body before served w answers fresh call left stopped clean_ same =
      let cleaned_ : cleaned execute mids p q vs us r made fields fits ≡ (w, none) =
        rw left (rw stopped clean_) in
      let (status, header, sent) =
        serve_content-Answers serve path body r before served answers fresh call in
      (
        after_world (λ u. record u { response = write (execute vs q.world).output u.response })
            (record { world = send_header r w; taken = p.taken }),
        status,
        header,
        buffering_finish execute mids p q vs us r made fields fits ∙ rw cleaned_ refl,
        sent,
        ground (arith, sent, same),
        refl,
      )
