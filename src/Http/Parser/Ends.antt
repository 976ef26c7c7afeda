-- ===== src/Http/Parser/Ends.antt =====
-- `Parser::feed` of src/server/http/http_parser.cpp and whether a call ends.
use ai_camera.Base.{
  ℕ, suc, refl, ◌≢◌, inl, inr, List, ◌++◌, arith, ltb, Bool-cases, Option-cases, codes, length,
}
use ai_camera.Base.Text.{lookup}
use ai_camera.Base.Integers.{stoul}
use ai_camera.Http.Request.{Request}
use ai_camera.Http.Parser.{
  ParseState, Parser, HeaderEnd, more, bad, ended, out_of_fuel, Fed, fed, threw, endless,
  try_consume_line, request_line, read_headers, read_body, after_headers, feed_headers, feed_line,
  feed_in, feed,
}
use ai_camera.Http.Parser.Headers.{read_headers-ends}

unfoldable Returns : Fed → Type 0
Returns endless = ⊥
Returns _ = Unit

read_body-Returns :
    (whole : List ℕ) (req : Request) (view : List ℕ) → Returns (read_body whole req view)
unfolding read_body Returns
read_body-Returns whole req view =
    elim (Option-cases (lookup (codes "content-length") req.headers)) [
      | inl e ↦ rw (read_body, e) tt
      | inr (value, e) ↦ elim (Option-cases (stoul value)) [
        | inl m ↦ rw (read_body, e, m) tt
        | inr (size, m) ↦ elim (Bool-cases (ltb (length view) size)) [
          | inl small ↦ rw (read_body, e, m, small) tt
          | inr enough ↦ rw (read_body, e, m, enough) tt
        ]
      ]
    ]

after_headers-Returns :
    (whole : List ℕ) (x : HeaderEnd) → x ≢ out_of_fuel → Returns (after_headers whole x)
unfolding after_headers Returns
after_headers-Returns whole (more req view) h = tt
after_headers-Returns whole (bad req view) h = tt
after_headers-Returns whole (ended req view) h = read_body-Returns whole req view
after_headers-Returns whole out_of_fuel h = elim (h refl) [ ]

feed_headers-Returns :
    (whole : List ℕ) (req : Request) (view : List ℕ) → Returns (feed_headers whole req view)
unfolding feed_headers
feed_headers-Returns whole req view =
    after_headers-Returns whole (read_headers (suc (length view)) req view)
      (read_headers-ends (suc (length view)) req view (omega arith))

feed_line-Returns :
    (state : ParseState) (req : Request) (whole : List ℕ) → Returns (feed_line state req whole)
unfolding feed_line Returns
feed_line-Returns state req whole = elim (Option-cases (try_consume_line whole)) [
  | inl e ↦ rw (feed_line, e) tt
  | inr (consumed, e) ↦ elim (Bool-cases (request_line req consumed.0).1) [
    | inr wrong ↦ rw (feed_line, e, wrong) tt
    | inl right ↦
        rw (feed_line, e, right)
          (feed_headers-Returns whole (request_line req consumed.0).0 consumed.1)
  ]
]

feed_in-Returns : (s : ParseState) (p : Parser) (bytes : List ℕ) → Returns (feed_in s p bytes)
unfolding feed_in Returns
feed_in-Returns ParseState.done p bytes = tt
feed_in-Returns ParseState.error p bytes = tt
feed_in-Returns ParseState.header_key p bytes =
    feed_headers-Returns (p.buffer ++ bytes) p.req (p.buffer ++ bytes)
feed_in-Returns ParseState.header_value p bytes =
    feed_headers-Returns (p.buffer ++ bytes) p.req (p.buffer ++ bytes)
feed_in-Returns ParseState.at_body p bytes =
    read_body-Returns (p.buffer ++ bytes) p.req (p.buffer ++ bytes)
feed_in-Returns ParseState.at_method p bytes =
    feed_line-Returns ParseState.at_method p.req (p.buffer ++ bytes)
feed_in-Returns ParseState.at_uri p bytes =
    feed_line-Returns ParseState.at_uri p.req (p.buffer ++ bytes)
feed_in-Returns ParseState.at_version p bytes =
    feed_line-Returns ParseState.at_version p.req (p.buffer ++ bytes)

not_endless : (x : Fed) → Returns x → x ≢ endless
unfolding Returns
not_endless (fed p consumed) h e = cc
not_endless (threw p) h e = cc
not_endless endless h e = elim h [ ]

-- A call ends, in every state and on all bytes: it returns, or it throws.
pub feed-ends : (p : Parser) (bytes : List ℕ) → feed p bytes ≢ endless
unfolding feed
feed-ends p bytes = not_endless (feed p bytes) (feed_in-Returns p.state p bytes)
