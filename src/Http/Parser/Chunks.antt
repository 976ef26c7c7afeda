-- ===== src/Http/Parser/Chunks.antt =====
-- The bytes of a request cut into calls of `Parser::feed`, src/server/http/http_parser.cpp.
use ai_camera.Base.{
  ℕ, suc, ◌≡◌, refl, sym, ap, inl, inr, Bool, true, false, none, some, List, [], ◌++◌, arith, ltb,
  Bool-cases, Option-cases, codes, length,
}
use mathlib.Core.List.{append_assoc}
use ai_camera.Base.Text.{lookup}
use ai_camera.Http.Request.{Request, new_request}
use ai_camera.Http.Parser.Headers.{try_consume_line-append, continued, read_headers-continued}
use ai_camera.Http.Parser.{
  ParseState, Parser, HeaderEnd, more, bad, ended, out_of_fuel, Fed, fed, threw, endless, parser_of,
  try_consume_line, request_line, read_headers, read_body, after_headers, feed_headers, feed_line,
  feed_in, feed,
}
use ai_camera.Base.Integers.{stoul}

abbrev is_reading_state : ParseState → Bool
is_reading_state ParseState.done = false
is_reading_state ParseState.error = false
is_reading_state _ = true

-- Whether the parser wants more bytes.
abbrev pub is_reading : Fed → Bool
is_reading (fed p consumed) = is_reading_state p.state
is_reading (threw p) = false
is_reading endless = false

abbrev kept : ParseState → List ℕ → List ℕ
kept ParseState.error buffer = []
kept _ buffer = buffer

-- What a call leaves that a later call or the session looks at: the state, the request, whether it
-- threw, and the buffer, unless the parser is in error.
abbrev pub result : Fed → ParseState × Request × Bool × List ℕ
result (fed p consumed) = (p.state, p.req, false, kept p.state p.buffer)
result (threw p) = (p.state, p.req, true, [])
result endless = (ParseState.error, new_request, true, [])

result-read_body :
    (w w' : List ℕ) (req : Request) (v : List ℕ)
    → result (read_body w req v) ≡ result (read_body w' req v)
unfolding read_body
result-read_body w w' req v = elim (Option-cases (lookup (codes "content-length") req.headers)) [
  | inl e ↦ rw (read_body, e) refl
  | inr (value, e) ↦ elim (Option-cases (stoul value)) [
    | inl n ↦ rw (read_body, e, n) refl
    | inr (size, n) ↦ elim (Bool-cases (ltb (length v) size)) [
      | inl small ↦ rw (read_body, e, n, small) refl
      | inr enough ↦ rw (read_body, e, n, enough) refl
    ]
  ]
]

-- What was the buffer at the start of the call makes no difference.
result-after_headers :
    (w w' : List ℕ) (e : HeaderEnd) → result (after_headers w e) ≡ result (after_headers w' e)
unfolding after_headers
result-after_headers w w' (more req v) = refl
result-after_headers w w' (bad req v) = refl
result-after_headers w w' (ended req v) = result-read_body w w' req v
result-after_headers w w' out_of_fuel = refl

parser_of-read_body :
    (w : List ℕ) (req : Request) (v : List ℕ)
    → is_reading (read_body w req v) ≡ true
    → parser_of (read_body w req v) ≡ record { state = ParseState.at_body; req = req; buffer = v }
unfolding read_body
parser_of-read_body w req v h = elim (Option-cases (lookup (codes "content-length") req.headers)) [
  | inl e ↦ cc (rw (read_body, e) at h)
  | inr (value, e) ↦ elim (Option-cases (stoul value)) [
    | inl n ↦ cc (rw (read_body, e, n) at h)
    | inr (size, n) ↦ elim (Bool-cases (ltb (length v) size)) [
      | inl small ↦ rw (read_body, e, n, small) refl
      | inr enough ↦ cc (rw (read_body, e, n, enough) at h)
    ]
  ]
]

-- A body that is not whole is read again with the bytes that follow.
result-feed-read_body :
    (w w' : List ℕ) (req : Request) (v b : List ℕ)
    → is_reading (read_body w req v) ≡ true
    → result (read_body w' req (v ++ b)) ≡ result (feed (parser_of (read_body w req v)) b)
unfolding feed feed_in
result-feed-read_body w w' req v b h =
    rw (parser_of-read_body w req v h) (result-read_body w' (v ++ b) req (v ++ b))

result-feed-after_headers :
    (w w' : List ℕ) (e : HeaderEnd) (b : List ℕ)
    → is_reading (after_headers w e) ≡ true
    → result (after_headers w' (continued e b)) ≡ result (feed (parser_of (after_headers w e)) b)
unfolding after_headers feed feed_in feed_headers
result-feed-after_headers w w' (more req v) b h =
    result-after_headers w' (v ++ b) (read_headers (suc (length (v ++ b))) req (v ++ b))
result-feed-after_headers w w' (bad req v) b h = cc
result-feed-after_headers w w' (ended req v) b h = result-feed-read_body w w' req v b h
result-feed-after_headers w w' out_of_fuel b h = cc

result-feed-feed_headers :
    (w w' : List ℕ) (req : Request) (v b : List ℕ)
    → is_reading (feed_headers w req v) ≡ true
    → result (feed_headers w' req (v ++ b)) ≡ result (feed (parser_of (feed_headers w req v)) b)
unfolding feed_headers
result-feed-feed_headers w w' req v b h =
    rw
      (read_headers-continued (suc (length v)) (suc (length (v ++ b))) req v b (omega arith)
        (omega arith))
      (result-feed-after_headers w w' (read_headers (suc (length v)) req v) b h)

-- The request line, whole or not, and what it leads to.
pub feed_line-none :
    (s : ParseState) (req : Request) (w : List ℕ)
    → try_consume_line w ≡ none
    → feed_line s req w ≡ fed (record { state = s; req = req; buffer = w }) 0
unfolding feed_line
feed_line-none s req w e = rw (feed_line, e) refl

pub feed_line_bad :
    (s : ParseState) (req : Request) (w l r : List ℕ)
    → try_consume_line w ≡ some (l, r)
    → (request_line req l).1 ≡ false
    → is_reading (feed_line s req w) ≡ false
unfolding feed_line
feed_line_bad s req w l r e b = rw (feed_line, e, b) refl

pub feed_line_good :
    (s : ParseState) (req : Request) (w l r : List ℕ)
    → try_consume_line w ≡ some (l, r)
    → (request_line req l).1 ≡ true
    → feed_line s req w ≡ feed_headers w (request_line req l).0 r
unfolding feed_line
feed_line_good s req w l r e b = rw (feed_line, e, b) refl

result-feed-feed_line :
    (s : ParseState) (req : Request) (w b : List ℕ)
    → feed (record { state = s; req = req; buffer = w }) b ≡ feed_line s req (w ++ b)
    → is_reading (feed_line s req w) ≡ true
    → result (feed_line s req (w ++ b)) ≡ result (feed (parser_of (feed_line s req w)) b)
result-feed-feed_line s req w b enters h = elim (Option-cases (try_consume_line w)) [
  | inl e ↦ rw (feed_line-none s req w e) (ap result (sym enters))
  | inr ((l, r), e) ↦ elim (Bool-cases (request_line req l).1) [
    | inl good ↦
        let first = feed_line_good s req w l r e good in
        rw
          (first, feed_line_good s req (w ++ b) l (r ++ b) (try_consume_line-append w b l r e) good)
          (result-feed-feed_headers w (w ++ b) (request_line req l).0 r b (rw first at h))
    | inr wrong ↦ cc (h, feed_line_bad s req w l r e wrong)
  ]
]

feed_in-append :
    (s : ParseState) (p : Parser) (a b : List ℕ)
    → p.state ≡ s
    → is_reading (feed_in s p a) ≡ true
    → result (feed_in s p (a ++ b)) ≡ result (feed (parser_of (feed_in s p a)) b)
unfolding feed_in feed
feed_in-append ParseState.done p a b e h = cc (rw e at h)
feed_in-append ParseState.error p a b e h = cc (rw e at h)
feed_in-append ParseState.at_body p a b e h =
    rw (← append_assoc p.buffer a b)
      (result-feed-read_body (p.buffer ++ a) ((p.buffer ++ a) ++ b) p.req (p.buffer ++ a) b h)
feed_in-append ParseState.header_key p a b e h =
    rw (← append_assoc p.buffer a b)
      (result-feed-feed_headers (p.buffer ++ a) ((p.buffer ++ a) ++ b) p.req (p.buffer ++ a) b h)
feed_in-append ParseState.header_value p a b e h =
    rw (← append_assoc p.buffer a b)
      (result-feed-feed_headers (p.buffer ++ a) ((p.buffer ++ a) ++ b) p.req (p.buffer ++ a) b h)
feed_in-append ParseState.at_method p a b e h =
    rw (← append_assoc p.buffer a b)
      (result-feed-feed_line ParseState.at_method p.req (p.buffer ++ a) b refl h)
feed_in-append ParseState.at_uri p a b e h =
    rw (← append_assoc p.buffer a b)
      (result-feed-feed_line ParseState.at_uri p.req (p.buffer ++ a) b refl h)
feed_in-append ParseState.at_version p a b e h =
    rw (← append_assoc p.buffer a b)
      (result-feed-feed_line ParseState.at_version p.req (p.buffer ++ a) b refl h)

-- Bytes given to the parser in two calls, the first of which leaves it wanting more: the state, the
-- request, whether it throws, and, unless it is in error or throws, the buffer are those after one call
-- with all the bytes.
pub feed-append :
    (p : Parser) (a b : List ℕ)
    → is_reading (feed p a) ≡ true
    → result (feed p (a ++ b)) ≡ result (feed (parser_of (feed p a)) b)
unfolding feed
feed-append p a b h = feed_in-append p.state p a b refl h
