-- ===== src/Http/Parser.antt =====
-- `http::Parser`, src/server/http/http_parser.cpp. A string view into the buffer is the rest of the
-- buffer from there on, so the bytes consumed are those that the view no longer has. `current_key_`
-- is left out: it is cleared and never used.
pub mod Headers
pub mod Chunks
pub mod Complete
pub mod Ends
use ai_camera.Base.{
  ℕ, zero, suc, ◌+◌, ◌-◌, ◌*◌, ◌/◌, ◌%◌, ◌^◌, ◌≤◌, ◌<◌, ◌≡◌, refl, sym, ap, ◌∙◌, ◌≢◌, ◌↔◌, ◌⊎◌, inl,
  inr, Bool, true, false, not, ◌&&◌, ◌||◌, Option, none, some, List, [], ◌∷◌, ◌++◌, map, arith,
  dec_lt, dec_le, ℕ_discrete, ltb, leb, ◌==◌, if◌then◌else◌, ltb→lt, lt→ltb, ltb_false→le,
  le→ltb_false, ==_iff, ==_refl, Bool-cases, Option-cases, codes, length, get_or, take, drop,
  replicate, All, length-append, length-take, length-drop, take-append-drop, take-length,
  drop-length, take-append_le, drop-append_le, get_or-append_left, All-append, All-take, All-drop,
}
use ai_camera.Base.Integers.{stoul}
use ai_camera.Base.Text.{
  strip_cr, same_text, find_char, is_space, skip_spaces, next_word, to_lower, is_digit, digits,
  assign, lookup,
}
use ai_camera.Http.Request.{Method, Request, new_request}

pub data ParseState : Type 0 where
  at_method at_uri at_version header_key header_value at_body done error : ParseState

pub record Parser : Type 0 where
  pub state : ParseState
  pub req : Request
  pub buffer : List ℕ

abbrev pub reset : Parser
reset = record { state = ParseState.at_method; req = new_request; buffer = [] }

-- The line and the view behind it.
unfoldable pub try_consume_line : List ℕ → Option (List ℕ × List ℕ)
unfolding find_char strip_cr
try_consume_line input = elim (find_char 10 input) [
  | none ↦ none
  | some pos ↦ some (strip_cr (take pos input), drop (suc pos) input)
]

unfoldable pub method_of : List ℕ → Method
unfolding same_text
method_of text =
    if same_text text (codes "GET")
    then Method.get
    else if same_text text (codes "POST")
    then Method.post
    else if same_text text (codes "PUT")
    then Method.put
    else if same_text text (codes "DELETE")
    then Method.delete
    else if same_text text (codes "HEAD")
    then Method.head
    else if same_text text (codes "OPTIONS")
    then Method.options
    else if same_text text (codes "PATCH")
    then Method.patch
    else Method.unknown

abbrev pub known_version : List ℕ → Bool
unfolding same_text
known_version version = same_text version (codes "HTTP/1.0") || same_text version (codes "HTTP/1.1")

-- What a request line makes of a request, and whether the parser goes on.
unfoldable pub request_line : Request → List ℕ → Request × Bool
unfolding next_word method_of
request_line req line =
    let (method_str, rest) = next_word line in
    let (uri, rest1) = next_word rest in
    let (version, rest2) = next_word rest1 in
    if length method_str == 0 || length uri == 0 || length version == 0 then (req, false) else (
      record req { method = method_of method_str; uri = uri; http_version = version },
      known_version version,
    )

-- A header line, unless it has no colon.
unfoldable pub header_line : Request → List ℕ → Option Request
unfolding find_char skip_spaces assign
header_line req line = elim (find_char b':' line) [
  | none ↦ none
  | some colon ↦ some (record req {
    headers =
        assign req.headers (map to_lower (take colon line)) (skip_spaces (drop (suc colon) line));
  })
]

-- How the loop over the header lines ends: with no whole line left, with a line that is no header, or
-- with the empty line; the view is what is left.
pub data HeaderEnd : Type 0 where
  more bad ended : Request → List ℕ → HeaderEnd
  out_of_fuel : HeaderEnd

-- The loop; each round takes a byte or more.
unfoldable pub read_headers : ℕ → Request → List ℕ → HeaderEnd
read_headers zero req view = out_of_fuel
read_headers (suc fuel) req view = elim (try_consume_line view) [
  | none ↦ more req view
  | some consumed ↦ elim (length consumed.0 == 0) [
    | true ↦ ended req consumed.1
    | false ↦ elim (header_line req consumed.0) [
      | none ↦ bad req consumed.1
      | some req' ↦ read_headers fuel req' consumed.1
    ]
  ]
]

-- What `feed` comes to: the parser, and the bytes it says were consumed, or an exception; `endless` is
-- fuel run out.
pub data Fed : Type 0 where
  fed : Parser → ℕ → Fed
  threw : Parser → Fed
  endless : Fed

-- The parser after `feed`.
abbrev pub parser_of : Fed → Parser
parser_of (fed p consumed) = p
parser_of (threw p) = p
parser_of endless = reset

-- The block on the body; `whole` is the buffer at the start of the call.
unfoldable pub read_body : List ℕ → Request → List ℕ → Fed
read_body whole req view = elim (lookup (codes "content-length") req.headers) [
  | none ↦
      fed (record { state = ParseState.done; req = req; buffer = view })
        (length whole - length view)
  | some value ↦ elim (stoul value) [
    | none ↦ threw (record { state = ParseState.at_body; req = req; buffer = whole })
    | some content_length ↦
        if ltb (length view) content_length
        then fed (record { state = ParseState.at_body; req = req; buffer = view })
            (length whole - length view)
        else fed
            (record {
              state = ParseState.done;
              req = record req { body = take content_length view };
              buffer = drop content_length view;
            })
            (length whole - length view + content_length)
  ]
]

-- The block on the headers, and what follows it.
unfoldable pub after_headers : List ℕ → HeaderEnd → Fed
after_headers whole (more req view) =
    fed (record { state = ParseState.header_key; req = req; buffer = view })
      (length whole - length view)
after_headers whole (bad req view) =
    fed (record { state = ParseState.error; req = req; buffer = whole })
      (length whole - length view)
after_headers whole (ended req view) = read_body whole req view
after_headers whole out_of_fuel = endless

unfoldable pub feed_headers : List ℕ → Request → List ℕ → Fed
feed_headers whole req view = after_headers whole (read_headers (suc (length view)) req view)

-- The block on the request line, and what follows it.
unfoldable pub feed_line : ParseState → Request → List ℕ → Fed
feed_line state req whole = elim (try_consume_line whole) [
  | none ↦ fed (record { state = state; req = req; buffer = whole }) 0
  | some consumed ↦
      (let (req', goes_on) = request_line req consumed.0 in
        elim goes_on [
          | false ↦
              fed (record { state = ParseState.error; req = req'; buffer = whole })
                (length whole - length consumed.1)
          | true ↦ feed_headers whole req' consumed.1
        ])
]

-- The blocks by the state that they are entered in.
unfoldable pub feed_in : ParseState → Parser → List ℕ → Fed
feed_in ParseState.done p bytes = fed p 0
feed_in ParseState.error p bytes = fed p 0
feed_in ParseState.header_key p bytes = feed_headers (p.buffer ++ bytes) p.req (p.buffer ++ bytes)
feed_in ParseState.header_value p bytes = feed_headers (p.buffer ++ bytes) p.req (p.buffer ++ bytes)
feed_in ParseState.at_body p bytes = read_body (p.buffer ++ bytes) p.req (p.buffer ++ bytes)
feed_in s p bytes = feed_line s p.req (p.buffer ++ bytes)

unfoldable pub feed : Parser → List ℕ → Fed
feed p bytes = feed_in p.state p bytes
