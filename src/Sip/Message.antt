-- ===== src/Sip/Message.antt =====
-- `SipMessage`, src/gb28181/sip_message.cpp.
pub mod Lines
pub mod Fields
pub mod Numbers
pub mod Start
pub mod RoundTrip
use ai_camera.Base.{
  ℕ, zero, suc, ◌+◌, ◌-◌, ◌*◌, ◌/◌, ◌%◌, ◌^◌, ◌≤◌, ◌<◌, ◌≡◌, refl, sym, ap, ◌∙◌, ◌≢◌, ◌↔◌, ◌⊎◌, inl,
  inr, Bool, true, false, not, ◌&&◌, ◌||◌, Option, none, some, List, [], ◌∷◌, ◌++◌, map, arith,
  dec_lt, dec_le, ℕ_discrete, ltb, leb, ◌==◌, if◌then◌else◌, ltb→lt, lt→ltb, ltb_false→le,
  le→ltb_false, ==_iff, ==_refl, Bool-cases, Option-cases, codes, length, get_or, take, drop,
  replicate, All, length-append, length-take, length-drop, take-append-drop, take-length,
  drop-length, take-append_le, drop-append_le, get_or-append_left, All-append, All-take, All-drop,
}
use ai_camera.Base.Integers.{ℤ, pos, negsuc, word_of, stoul}
use ai_camera.Base.Text.{
  lines, same_text, begins, find, find_char, strip_cr, skip_spaces, next_word, to_lower, is_digit,
  digits, to_decimal, decimal_digits, assign, lookup,
}
use ai_camera.Sip.Types.{
  MessageType, request, response, SipMethod, unknown, register, invite, ack, bye, cancel, message,
  options, subscribe, notify, SipMessage, sip_request, sip_response,
}

unfoldable pub set_header : SipMessage → List ℕ → List ℕ → SipMessage
set_header m name value = record m { headers = assign m.headers (map to_lower name) value }

-- A header that is not there reads as the empty text.
unfoldable pub get_header : SipMessage → List ℕ → List ℕ
get_header m name = elim (lookup (map to_lower name) m.headers) [ none ↦ [] | some value ↦ value ]

unfoldable pub has_header : SipMessage → List ℕ → Bool
has_header m name = elim (lookup (map to_lower name) m.headers) [ none ↦ false | some value ↦ true ]

-- `map.erase(key)`.
unfoldable pub erase_key : List (List ℕ × List ℕ) → List ℕ → List (List ℕ × List ℕ)
erase_key [] key = []
erase_key (entry ∷ entries) key =
    let rest = erase_key entries key in if same_text entry.0 key then entries else entry ∷ rest

unfoldable pub remove_header : SipMessage → List ℕ → SipMessage
remove_header m name = record m { headers = erase_key m.headers (map to_lower name) }

unfoldable pub method_to_string : SipMethod → List ℕ
method_to_string register = codes "REGISTER"
method_to_string invite = codes "INVITE"
method_to_string ack = codes "ACK"
method_to_string bye = codes "BYE"
method_to_string cancel = codes "CANCEL"
method_to_string message = codes "MESSAGE"
method_to_string options = codes "OPTIONS"
method_to_string subscribe = codes "SUBSCRIBE"
method_to_string notify = codes "NOTIFY"
method_to_string unknown = codes "UNKNOWN"

unfoldable pub string_to_method : List ℕ → SipMethod
string_to_method text =
    if same_text text (codes "REGISTER")
    then register
    else if same_text text (codes "INVITE")
    then invite
    else if same_text text (codes "ACK")
    then ack
    else if same_text text (codes "BYE")
    then bye
    else if same_text text (codes "CANCEL")
    then cancel
    else if same_text text (codes "MESSAGE")
    then message
    else if same_text text (codes "OPTIONS")
    then options
    else if same_text text (codes "SUBSCRIBE")
    then subscribe
    else if same_text text (codes "NOTIFY")
    then notify
    else unknown

abbrev pub line_end : List ℕ
line_end = 13 ∷ 10 ∷ []

abbrev pub sip_version : List ℕ
sip_version = codes "SIP/2.0"

abbrev pub content_length : List ℕ
content_length = codes "Content-Length"

-- The line `name: value`, less its end.
abbrev pub field_line : List ℕ × List ℕ → List ℕ
field_line entry = entry.0 ++ (codes ": " ++ entry.1)

-- The loop over the headers.
unfoldable pub header_text : List (List ℕ × List ℕ) → List ℕ
header_text [] = []
header_text (entry ∷ entries) = field_line entry ++ (line_end ++ header_text entries)

unfoldable pub start_of : MessageType → SipMessage → List ℕ
start_of request m = method_to_string m.method ++ (codes " " ++ (m.request_uri ++ codes " SIP/2.0"))
start_of response m =
    codes "SIP/2.0 " ++ (to_decimal m.status_code ++ (codes " " ++ m.reason_phrase))

abbrev pub start_line : SipMessage → List ℕ
start_line m = start_of m.type m

unfoldable pub length_line : SipMessage → List ℕ
length_line m =
    if has_header m content_length
    then []
    else field_line (content_length, to_decimal (length m.body)) ++ line_end

unfoldable pub serialize : SipMessage → List ℕ
serialize m =
    start_line m ++ (line_end ++ (length_line m ++ (header_text m.headers ++ (line_end ++ m.body))))

-- `stream >> number` of 32 bits, and what is left; `none` leaves the stream failed, with the number that
-- the library stores then.
unfoldable pub without_digits : List ℕ → List ℕ
without_digits [] = []
without_digits (c ∷ cs) = let rest = without_digits cs in if is_digit c then rest else c ∷ cs

abbrev minus : ℕ → ℤ
minus zero = pos zero
minus (suc n) = negsuc n

unfoldable pub extract_int : List ℕ → ℤ × Option (List ℕ)
extract_int text =
    let rest = skip_spaces text in
    let first = get_or rest 0 0 in
    let unsigned = (if first == b'+' || first == b'-' then drop 1 rest else rest) in
    let (value, count) = digits unsigned 0 0 in
    if count == 0
    then (pos 0, none)
    else if first == b'-'
    then (if leb value (2 ^ 31)
        then (minus value, some (without_digits unsigned))
        else (negsuc (2 ^ 31 - 1), none))
    else if ltb value (2 ^ 31)
    then (pos value, some (without_digits unsigned))
    else (pos (2 ^ 31 - 1), none)

-- The text from its first character that is no space; all of it when there is none.
unfoldable pub blanks_dropped : List ℕ → List ℕ
blanks_dropped [] = []
blanks_dropped (c ∷ cs) = let rest = blanks_dropped cs in if c == 32 then rest else c ∷ cs

unfoldable pub after_blanks : List ℕ → List ℕ
after_blanks value = let rest = blanks_dropped value in if length rest == 0 then value else rest

-- `nullptr`, an exception of the library, or a message.
pub data SipParsed : Type 0 where
  refused : SipParsed
  threw : SipParsed
  parsed : SipMessage → SipParsed

-- The status line; `none` where `substr` throws.
unfoldable pub parse_status_line : List ℕ → Option SipMessage
parse_status_line line =
    if ltb (length line) 8
    then none
    else let (status_code, rest) = extract_int (drop 8 line) in
      some (
        sip_response (word_of status_code)
          (elim rest [ none ↦ [] | some reason ↦ after_blanks reason ]))

-- The request line; `none` where the version is another.
unfoldable pub parse_request_line : List ℕ → Option SipMessage
parse_request_line line =
    let (method_str, rest) = next_word line in
    let (uri, rest1) = next_word rest in
    let (version, rest2) = next_word rest1 in
    if same_text version sip_version
    then some (sip_request (string_to_method method_str) uri)
    else none

unfoldable pub add_header_line : SipMessage → List ℕ → SipMessage
add_header_line m line = elim (find_char b':' line) [
  | none ↦ m
  | some colon_pos ↦ set_header m (take colon_pos line) (after_blanks (drop (suc colon_pos) line))
]

-- The loop over the header fields.
unfoldable pub parse_header_lines : List (List ℕ) → SipMessage → SipMessage
parse_header_lines [] m = m
parse_header_lines (line ∷ rest) m =
    let further = parse_header_lines rest (add_header_line m (strip_cr line)) in
    if length (strip_cr line) == 0 then m else further

abbrev pub blank_line : List ℕ
blank_line = 13 ∷ 10 ∷ 13 ∷ 10 ∷ []

unfoldable pub body_of : List ℕ → List ℕ
body_of raw_message = elim (find blank_line raw_message) [
  | none ↦ []
  | some i ↦ drop (i + 4) raw_message
]

-- The body; `stoul` throws on a length that is no number.
unfoldable pub with_sip_body : List ℕ → SipMessage → SipParsed
with_sip_body raw_message m =
    let length_text = get_header m content_length in
    if length length_text == 0 then parsed m else elim (stoul length_text) [
      | none ↦ threw
      | some size ↦ if size == 0 then parsed m else parsed (record m { body = body_of raw_message })
    ]

unfoldable pub parse_sip : List ℕ → SipParsed
parse_sip raw_message = elim (lines raw_message) [
  | [] ↦ refused
  | first ∷ rest ↦
      let line = strip_cr first in
      if length first == 0
      then refused
      else if begins sip_version line
      then elim (parse_status_line line) [
        | none ↦ threw
        | some m ↦ with_sip_body raw_message (parse_header_lines rest m)
      ]
      else elim (parse_request_line line) [
        | none ↦ refused
        | some m ↦ with_sip_body raw_message (parse_header_lines rest m)
      ]
]
