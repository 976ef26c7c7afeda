-- ===== src/Http/Parser/Complete.antt =====
-- Whole requests and bytes behind them in a call of `Parser::feed`, src/server/http/http_parser.cpp.
use ai_camera.Base.{
  ℕ, suc, ◌≡◌, refl, inl, inr, false, Option, none, some, List, ◌++◌, arith, ltb, ltb_false→le,
  Bool-cases, Option-cases, codes, length, length-append, take-append_le,
}
use mathlib.Core.List.{append_assoc}
use ai_camera.Base.Text.{lookup}
use ai_camera.Http.Request.{Request}
use ai_camera.Http.Parser.Headers.{try_consume_line-append, continued, read_headers-continued}
use ai_camera.Http.Parser.Chunks.{feed_line-none, feed_line_good}
use ai_camera.Http.Parser.{
  ParseState, Parser, HeaderEnd, more, bad, ended, out_of_fuel, Fed, fed, threw, endless,
  try_consume_line, request_line, read_headers, read_body, after_headers, feed_headers, feed_line,
  feed_in, feed,
}
use ai_camera.Base.Integers.{stoul}

abbrev done_with : ParseState → Request → Option Request
done_with ParseState.done req = some req
done_with _ req = none

-- The request, if the parser has read a whole one.
abbrev pub complete_request : Fed → Option Request
complete_request (fed p consumed) = done_with p.state p.req
complete_request (threw p) = none
complete_request endless = none

read_body_complete :
    (w w' : List ℕ) (req r : Request) (v b : List ℕ)
    → complete_request (read_body w req v) ≡ some r
    → complete_request (read_body w' req (v ++ b)) ≡ some r
unfolding read_body
read_body_complete w w' req r v b h =
    elim (Option-cases (lookup (codes "content-length") req.headers)) [
      | inl e ↦ rw (read_body, e) (rw (e, read_body) at h)
      | inr (value, e) ↦ elim (Option-cases (stoul value)) [
        | inl n ↦ cc (rw (read_body, e, n) at h)
        | inr (size, n) ↦ elim (Bool-cases (ltb (length v) size)) [
          | inl small ↦ cc (rw (read_body, e, n, small) at h)
          | inr enough ↦
              let whole : ltb (length (v ++ b)) size ≡ false = ground (arith, length-append v b) in
              rw
                (
                  read_body,
                  e,
                  n,
                  whole,
                  take-append_le size v b (ltb_false→le (length v) size enough),
                )
                (rw (e, read_body, n, enough) at h)
        ]
      ]
    ]

after_headers_complete :
    (w w' : List ℕ) (e : HeaderEnd) (r : Request) (b : List ℕ)
    → complete_request (after_headers w e) ≡ some r
    → complete_request (after_headers w' (continued e b)) ≡ some r
unfolding after_headers
after_headers_complete w w' (more req v) r b h = cc
after_headers_complete w w' (bad req v) r b h = cc
after_headers_complete w w' (ended req v) r b h = read_body_complete w w' req r v b h
after_headers_complete w w' out_of_fuel r b h = cc

feed_headers_complete :
    (w w' : List ℕ) (req r : Request) (v b : List ℕ)
    → complete_request (feed_headers w req v) ≡ some r
    → complete_request (feed_headers w' req (v ++ b)) ≡ some r
unfolding feed_headers
feed_headers_complete w w' req r v b h =
    rw
      (read_headers-continued (suc (length v)) (suc (length (v ++ b))) req v b (omega arith)
        (omega arith))
      (after_headers_complete w w' (read_headers (suc (length v)) req v) r b h)

complete_request-wrong_line :
    (s : ParseState) (req : Request) (w l r : List ℕ)
    → try_consume_line w ≡ some (l, r)
    → (request_line req l).1 ≡ false
    → complete_request (feed_line s req w) ≡ none
unfolding feed_line
complete_request-wrong_line s req w l r e b = rw (feed_line, e, b) refl

feed_line_complete :
    (s : ParseState) (req r : Request) (w b : List ℕ)
    → complete_request (feed_line s req w) ≡ some r
    → done_with s req ≡ none
    → complete_request (feed_line s req (w ++ b)) ≡ some r
feed_line_complete s req r w b h going = elim (Option-cases (try_consume_line w)) [
  | inl e ↦ cc (rw (feed_line-none s req w e) at h, going)
  | inr ((l, v), e) ↦ elim (Bool-cases (request_line req l).1) [
    | inl good ↦
        rw (feed_line_good s req (w ++ b) l (v ++ b) (try_consume_line-append w b l v e) good) (
          feed_headers_complete w (w ++ b) (request_line req l).0 r v b
            (rw (feed_line_good s req w l v e good) at h))
    | inr wrong ↦ cc (h, complete_request-wrong_line s req w l v e wrong)
  ]
]

feed_in_complete :
    (s : ParseState) (p : Parser) (r : Request) (a b : List ℕ)
    → complete_request (feed_in s p a) ≡ some r
    → complete_request (feed_in s p (a ++ b)) ≡ some r
unfolding feed_in
feed_in_complete ParseState.done p r a b h = h
feed_in_complete ParseState.error p r a b h = h
feed_in_complete ParseState.at_body p r a b h =
    rw (← append_assoc p.buffer a b)
      (read_body_complete (p.buffer ++ a) ((p.buffer ++ a) ++ b) p.req r (p.buffer ++ a) b h)
feed_in_complete ParseState.header_key p r a b h =
    rw (← append_assoc p.buffer a b)
      (feed_headers_complete (p.buffer ++ a) ((p.buffer ++ a) ++ b) p.req r (p.buffer ++ a) b h)
feed_in_complete ParseState.header_value p r a b h =
    rw (← append_assoc p.buffer a b)
      (feed_headers_complete (p.buffer ++ a) ((p.buffer ++ a) ++ b) p.req r (p.buffer ++ a) b h)
feed_in_complete ParseState.at_method p r a b h =
    rw (← append_assoc p.buffer a b)
      (feed_line_complete ParseState.at_method p.req r (p.buffer ++ a) b h refl)
feed_in_complete ParseState.at_uri p r a b h =
    rw (← append_assoc p.buffer a b)
      (feed_line_complete ParseState.at_uri p.req r (p.buffer ++ a) b h refl)
feed_in_complete ParseState.at_version p r a b h =
    rw (← append_assoc p.buffer a b)
      (feed_line_complete ParseState.at_version p.req r (p.buffer ++ a) b h refl)

-- What one call has read as a whole request is the request that a call with more bytes behind them
-- reads.
pub feed_complete :
    (p : Parser) (r : Request) (a b : List ℕ)
    → complete_request (feed p a) ≡ some r
    → complete_request (feed p (a ++ b)) ≡ some r
unfolding feed
feed_complete p r a b h = feed_in_complete p.state p r a b h
