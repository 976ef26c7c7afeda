-- ===== src/Sip/Message/Start.antt =====
-- First lines as `SipMessage::Parse`, src/gb28181/sip_message.cpp, reads them.
use ai_camera.Base.{
  ℕ, suc, ◌%◌, ◌^◌, ◌<◌, ◌≡◌, refl, ◌∙◌, true, false, none, some, List, [], ◌∷◌, ◌++◌, arith, ltb,
  ◌==◌, if◌then◌else◌, codes, length, length-append,
}
use ai_camera.Base.Integers.{word_of}
use ai_camera.Base.Text.{lines, begins, decimal_digits, to_decimal, next_word, same_text}
use ai_camera.Sip.Types.{
  MessageType, request, response, SipMethod, unknown, register, invite, ack, bye, cancel, message,
  options, subscribe, notify, SipMessage, sip_request, sip_response,
}
use ai_camera.Sip.Message.{
  method_to_string, string_to_method, sip_version, start_of, refused, threw, parse_status_line,
  parse_request_line, parse_header_lines, with_sip_body, parse_sip,
}
use ai_camera.Sip.Message.Lines.{
  without, without-append, solid, after_blanks-solid, strip_cr-append,
}
use ai_camera.Sip.Message.Numbers.{
  without-decimal_digits, extract_int-to_decimal, unspaced, without-unspaced, next_word-unspaced,
  next_word_skips,
}

-- What the first line of a message can carry.
abbrev pub IsStart : MessageType → SipMessage → Type 0
IsStart request m = (unspaced m.request_uri ≡ true) × (0 < length m.request_uri)
IsStart response m =
    (m.status_code < 2 ^ 16) × (without 10 m.reason_phrase ≡ true) × (solid m.reason_phrase ≡ true)

method_text :
    (method : SipMethod) (rest : List ℕ)
    → (next_word (method_to_string method ++ (32 ∷ rest)) ≡ (method_to_string method, 32 ∷ rest))
      × (string_to_method (method_to_string method) ≡ method)
      × (without 10 (method_to_string method) ≡ true)
      × (begins sip_version (method_to_string method ++ (32 ∷ rest)) ≡ false)
unfolding next_word method_to_string string_to_method without begins same_text
method_text register rest = (refl, refl, refl, refl)
method_text invite rest = (refl, refl, refl, refl)
method_text ack rest = (refl, refl, refl, refl)
method_text bye rest = (refl, refl, refl, refl)
method_text cancel rest = (refl, refl, refl, refl)
method_text message rest = (refl, refl, refl, refl)
method_text options rest = (refl, refl, refl, refl)
method_text subscribe rest = (refl, refl, refl, refl)
method_text notify rest = (refl, refl, refl, refl)
method_text unknown rest = (refl, refl, refl, refl)

parse_request_line_words :
    (line method_str uri rest rest1 rest2 : List ℕ)
    → next_word line ≡ (method_str, rest)
    → next_word rest ≡ (uri, rest1)
    → next_word rest1 ≡ (sip_version, rest2)
    → parse_request_line line ≡ some (sip_request (string_to_method method_str) uri)
unfolding parse_request_line same_text
parse_request_line_words line method_str uri rest rest1 rest2 e f g =
    rw (parse_request_line, e, f, g) refl

parse_request_line-start :
    (method : SipMethod) (uri : List ℕ)
    → unspaced uri ≡ true
    → 0 < length uri
    → parse_request_line (method_to_string method ++ (codes " " ++ (uri ++ codes " SIP/2.0")))
      ≡ some (sip_request method uri)
unfolding next_word
parse_request_line-start method [] h some_uri = elim some_uri [ ]
parse_request_line-start method (c ∷ cs) h some_uri =
    let behind = c ∷ cs ++ codes " SIP/2.0" in
    let (first, known, whole, apart) = method_text method behind in
    let line = method_to_string method ++ (codes " " ++ behind) in
    let second = next_word_skips behind ∙ next_word-unspaced c cs sip_version h in
    rw
      (
        parse_request_line_words line (method_to_string method) (c ∷ cs) (32 ∷ behind)
            (codes " SIP/2.0") [] first second refl,
        known,
      )
      refl

parse_status_line-start :
    (code : ℕ) (reason : List ℕ)
    → code < 2 ^ 16
    → solid reason ≡ true
    → parse_status_line (codes "SIP/2.0 " ++ (to_decimal code ++ (codes " " ++ reason)))
      ≡ some (sip_response code reason)
unfolding parse_status_line word_of
parse_status_line-start code reason small h =
    let text = to_decimal code ++ (codes " " ++ reason) in
    let long : ltb (length (codes "SIP/2.0 " ++ text)) 8 ≡ false = ground arith in
    let kept : code % 2 ^ 16 ≡ code = omega arith in
    rw
      (
        parse_status_line,
        long,
        extract_int-to_decimal code reason (omega arith),
        after_blanks-solid reason h,
        word_of,
        kept,
      )
      refl

pub start_of_whole :
    (t : MessageType) (m : SipMessage) → IsStart t m → without 10 (start_of t m) ≡ true
unfolding without start_of decimal_digits
start_of_whole request m (h, some_uri) =
    let (first, known, whole, apart) = method_text m.method [] in
    without-append 10 (method_to_string m.method) (codes " " ++ (m.request_uri ++ codes " SIP/2.0"))
      whole
      (without-append 10 m.request_uri (codes " SIP/2.0") (without-unspaced m.request_uri h) refl)
start_of_whole response m (small, whole, h) =
    without-append 10 (to_decimal m.status_code) (codes " " ++ m.reason_phrase)
      (without-decimal_digits 10 (suc m.status_code) m.status_code [] (omega arith) refl) whole

-- What the first line gives.
unfoldable pub started : MessageType → SipMessage → SipMessage
started request m = sip_request m.method m.request_uri
started response m = sip_response m.status_code m.reason_phrase

parse_sip-lines :
    (raw first : List ℕ) (rest : List (List ℕ))
    → lines raw ≡ (first ++ (13 ∷ [])) ∷ rest
    → parse_sip raw ≡ (
        if begins sip_version first
        then elim (parse_status_line first) [
          | none ↦ threw
          | some m ↦ with_sip_body raw (parse_header_lines rest m)
        ]
        else elim (parse_request_line first) [
          | none ↦ refused
          | some m ↦ with_sip_body raw (parse_header_lines rest m)
        ])
unfolding parse_sip
parse_sip-lines raw first rest e =
    let some_line : (length (first ++ (13 ∷ [])) == 0) ≡ false =
      ground (arith, length-append first (13 ∷ [])) in
    rw (parse_sip, e, some_line, strip_cr-append first) refl

version_first : (m : SipMessage) → begins sip_version (start_of response m) ≡ true
unfolding begins start_of
version_first m = refl

pub parse_sip_start :
    (t : MessageType) (m : SipMessage) (raw : List ℕ) (rest : List (List ℕ))
    → IsStart t m
    → lines raw ≡ (start_of t m ++ (13 ∷ [])) ∷ rest
    → parse_sip raw ≡ with_sip_body raw (parse_header_lines rest (started t m))
unfolding start_of started
parse_sip_start request m raw rest (h, some_uri) e =
    let (first, known, whole, apart) = method_text m.method (m.request_uri ++ codes " SIP/2.0") in
    rw
      (
        parse_sip-lines raw (start_of request m) rest e,
        apart,
        parse_request_line-start m.method m.request_uri h some_uri,
      )
      refl
parse_sip_start response m raw rest (small, whole, h) e =
    let is_version : begins sip_version (start_of response m) ≡ true = version_first m in
    rw
      (
        parse_sip-lines raw (start_of response m) rest e,
        is_version,
        parse_status_line-start m.status_code m.reason_phrase small h,
      )
      refl

-- What the first line says: the other fields of a message are not sent.
abbrev pub SameStart : MessageType → SipMessage → SipMessage → Type 0
SameStart request m n = (n.method ≡ m.method) × (n.request_uri ≡ m.request_uri)
SameStart response m n = (n.status_code ≡ m.status_code) × (n.reason_phrase ≡ m.reason_phrase)

pub started_blank :
    (t : MessageType) (m : SipMessage) → ((started t m).body ≡ []) × ((started t m).headers ≡ [])
unfolding started
started_blank request m = (refl, refl)
started_blank response m = (refl, refl)

pub started-SameStart :
    (t : MessageType) (m : SipMessage) → SameStart t m (started t m) × ((started t m).type ≡ t)
unfolding started
started-SameStart request m = ((refl, refl), refl)
started-SameStart response m = ((refl, refl), refl)
