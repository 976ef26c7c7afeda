-- ===== src/Sip/Message/RoundTrip.antt =====
-- Messages that `SipMessage::Serialize` writes and `SipMessage::Parse` reads, src/gb28181/sip_message.cpp.
use mathlib.Core.List.{append_assoc}
use ai_camera.Base.{
  ℕ, suc, ◌<◌, ◌≡◌, refl, ap, ◌∙◌, inl, inr, Bool, true, false, some, List, [], ◌∷◌, ◌++◌, arith,
  ◌==◌, if◌then◌else◌, Bool-cases, Option-cases, codes, length, All,
}
use ai_camera.Base.Decimal.{Numeral, decimal_digits-Numeral, stoul-to_decimal}
use ai_camera.Base.Integers.{u64_mod}
use ai_camera.Base.Text.{lines, decimal_digits, to_decimal, same_text, assign, lookup}
use ai_camera.Sip.Types.{MessageType, request, response, SipMessage}
use ai_camera.Sip.Message.{
  get_header, has_header, line_end, content_length, header_text, start_line, length_line, serialize,
  parsed, body_of, with_sip_body, parse_sip,
}
use ai_camera.Sip.Message.Lines.{without, solid, IsField, lines-line}
use ai_camera.Sip.Message.Fields.{
  stored, parse_header_lines-header_text, body_of-header_text, IsMap, or_else, lookup-stored,
}
use ai_camera.Sip.Message.Numbers.{without-decimal_digits}
use ai_camera.Sip.Message.Start.{
  IsStart, start_of_whole, started, parse_sip_start, SameStart, started_blank, started-SameStart,
}

-- A message whose parts its text can carry, with the right length if it gives one.
pub record IsSendable (m : SipMessage) : Type 0 where
  pub start : IsStart m.type m
  pub fields : All IsField m.headers
  pub is_map : IsMap m.headers
  pub length_right :
      (value : List ℕ)
      → lookup (codes "content-length") m.headers ≡ some value
      → value ≡ to_decimal (length m.body)
  pub length_small : length m.body < u64_mod

-- The length that `Serialize` adds.
abbrev pub added_length : SipMessage → List (List ℕ × List ℕ)
unfolding has_header
added_length m =
    if has_header m content_length
    then []
    else (codes "content-length", to_decimal (length m.body)) ∷ []

-- The same start, headers and body.
pub record Received (m n : SipMessage) : Type 0 where
  pub same_type : n.type ≡ m.type
  pub same_start : SameStart m.type m n
  pub same_headers :
      (name : List ℕ)
      → lookup name n.headers ≡ or_else (lookup name m.headers) (lookup name (added_length m))
  pub same_body : n.body ≡ m.body

sent_headers : SipMessage → List (List ℕ × List ℕ)
unfolding has_header
sent_headers m =
    if has_header m content_length
    then m.headers
    else (content_length, to_decimal (length m.body)) ∷ m.headers

Numeral-some : (text : List ℕ) → Numeral text → (length text == 0) ≡ false
Numeral-some [] h = elim h [ ]
Numeral-some (c ∷ cs) h = ground arith

either_body :
    (body : List ℕ) (m : SipMessage)
    → m.body ≡ []
    → (if length body == 0 then parsed m else parsed (record m { body = body }))
      ≡ parsed (record m { body = body })
either_body [] m e = rw (← e) refl
either_body (c ∷ cs) m e =
    let some_body : (suc (length cs) == 0) ≡ false = ground arith in rw some_body refl

with_sip_body-right :
    (raw body : List ℕ) (m : SipMessage)
    → get_header m content_length ≡ to_decimal (length body)
    → length body < u64_mod
    → body_of raw ≡ body
    → m.body ≡ []
    → with_sip_body raw m ≡ parsed (record m { body = body })
unfolding with_sip_body decimal_digits
with_sip_body-right raw body m there small e empty =
    let present =
      Numeral-some (to_decimal (length body))
        (decimal_digits-Numeral (suc (length body)) (length body) [] (omega arith)) in
    rw (with_sip_body, there, present, stoul-to_decimal (length body) small, e)
      (either_body body m empty)

serialize_sent :
    (m : SipMessage)
    → serialize m
      ≡ start_line m ++ (line_end ++ (header_text (sent_headers m) ++ (line_end ++ m.body)))
unfolding serialize length_line sent_headers header_text
serialize_sent m = elim (Bool-cases (has_header m content_length)) [
  | inl there ↦ rw (serialize, length_line, sent_headers, there) refl
  | inr missing ↦
      rw (serialize, length_line, sent_headers, missing)
        (rw
          (
            append_assoc (to_decimal (length m.body)) line_end
                (header_text m.headers ++ (line_end ++ m.body)),
            append_assoc (to_decimal (length m.body)) (line_end ++ header_text m.headers)
                (line_end ++ m.body),
          )
          refl)
]

stored_sent : (m : SipMessage) → stored (sent_headers m) [] ≡ stored m.headers (added_length m)
unfolding sent_headers assign
stored_sent m = elim (Bool-cases (has_header m content_length)) [
  | inl there ↦ rw (sent_headers, there) refl
  | inr missing ↦ rw (sent_headers, missing) refl
]

Numeral-solid : (text : List ℕ) → Numeral text → solid text ≡ true
unfolding solid
Numeral-solid [] h = elim h [ ]
Numeral-solid (c ∷ cs) h = ground arith

length_IsField : (n : ℕ) → IsField (content_length, to_decimal n)
unfolding decimal_digits without
length_IsField n = record {
  no_colon = refl;
  name_whole = refl;
  value_whole = without-decimal_digits 10 (suc n) n [] (omega arith) refl;
  value_solid = Numeral-solid (to_decimal n) (decimal_digits-Numeral (suc n) n [] (omega arith));
}

sent_headers-IsField : (m : SipMessage) → All IsField m.headers → All IsField (sent_headers m)
unfolding sent_headers
sent_headers-IsField m fields = either_headers (has_header m content_length)
  where
    either_headers :
        (b : Bool)
        → All IsField
            (if b then m.headers else (content_length, to_decimal (length m.body)) ∷ m.headers)
    either_headers true = fields
    either_headers false = (length_IsField (length m.body), fields)

lookup-length :
    (m : SipMessage)
    → IsSendable m
    → or_else
        (lookup (codes "content-length") m.headers)
        (lookup (codes "content-length") (added_length m))
      ≡ some (to_decimal (length m.body))
unfolding has_header lookup same_text
lookup-length m h = elim (Option-cases (lookup (codes "content-length") m.headers)) [
  | inl absent ↦ rw (absent, has_header) refl
  | inr (value, there) ↦ rw there (ap some (h.length_right value there))
]

-- The message that is read.
received : SipMessage → SipMessage
received m = record (started m.type m) { headers = stored (sent_headers m) []; body = m.body }

get_length :
    (m n : SipMessage)
    → IsSendable m
    → n.headers ≡ stored (sent_headers m) []
    → get_header n content_length ≡ to_decimal (length m.body)
unfolding get_header
get_length m n h e =
    let there =
      lookup-stored m.headers (added_length m) (codes "content-length") h.is_map
      ∙ lookup-length m h in
    rw (get_header, e, stored_sent m, there) refl

parse_sip_sent :
    (m : SipMessage)
    → IsSendable m
    → parse_sip
        (start_line m ++ (line_end ++ (header_text (sent_headers m) ++ (line_end ++ m.body))))
      ≡ parsed (received m)
unfolding received
parse_sip_sent m h =
    let whole = start_of_whole m.type m h.start in
    let fields = sent_headers-IsField m h.fields in
    let more = header_text (sent_headers m) ++ (line_end ++ m.body) in
    let raw = start_line m ++ (line_end ++ more) in
    let (no_body, no_headers) = started_blank m.type m in
    let n = record (started m.type m) { headers = stored (sent_headers m) [] } in
    rw
      (
        parse_sip_start m.type m raw (lines more) h.start (lines-line (start_line m) more whole),
        parse_header_lines-header_text (sent_headers m) (started m.type m) m.body fields,
        no_headers,
      )
      (with_sip_body-right raw m.body n (get_length m n h refl) h.length_small
        (body_of-header_text (sent_headers m) (start_line m) m.body whole fields) no_body)

received_start :
    (t : MessageType) (m : SipMessage)
    → SameStart t m (started m.type m)
    → SameStart t m (received m)
unfolding received
received_start request m h = h
received_start response m h = h

-- A message whose parts its text can carry, read back from what `Serialize` writes: `Parse` gives a
-- message of the same type with the same first line, the same body and, under every name, the same
-- header, the length of the body added where it was missing.
pub parse_sip-serialize :
    (m : SipMessage)
    → IsSendable m
    → (n : SipMessage) × (parse_sip (serialize m) ≡ parsed n) × Received m n
unfolding received
parse_sip-serialize m h =
    let (same_start, same_type) = started-SameStart m.type m in
    (
      received m,
      rw (serialize_sent m) (parse_sip_sent m h),
      record {
        same_type = same_type;
        same_start = received_start m.type m same_start;
        same_headers =
            λ name. rw (stored_sent m) (lookup-stored m.headers (added_length m) name h.is_map);
        same_body = refl;
      },
    )
