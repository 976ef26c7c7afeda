-- ===== src/Sip/Message/Fields.antt =====
-- The header fields of a message as `SipMessage::Parse`, src/gb28181/sip_message.cpp, reads them.
use mathlib.Core.List.{append_assoc}
use ai_camera.Base.{
  ℕ, ◌≡◌, refl, ◌∙◌, inl, inr, true, false, Option, none, some, List, [], ◌∷◌, ◌++◌, map, arith,
  ◌==◌, Bool-cases, codes, length, All, length-append,
}
use ai_camera.Base.Text.{
  lines, begins, strip_cr, same_text, same_text-eq, to_lower, assign, lookup, lookup-assign,
}
use ai_camera.Sip.Types.{SipMessage}
use ai_camera.Sip.Message.{
  set_header, field_line, line_end, header_text, parse_header_lines, body_of,
}
use ai_camera.Sip.Message.Lines.{
  without, without_first, without_rest, IsField, lines-line, strip_cr-append, body_of-line,
  body_of_last, header_line_whole, add_header_line-field_line,
}

-- The headers when fields are stored one after the other.
abbrev pub stored : List (List ℕ × List ℕ) → List (List ℕ × List ℕ) → List (List ℕ × List ℕ)
stored [] headers = headers
stored (entry ∷ entries) headers = stored entries (assign headers (map to_lower entry.0) entry.1)

header_line_some : (entry : List ℕ × List ℕ) → (length (field_line entry) == 0) ≡ false
header_line_some entry = ground (arith, length-append entry.0 (codes ": " ++ entry.1))

reassoc :
    (entry : List ℕ × List ℕ) (entries : List (List ℕ × List ℕ)) (rest : List ℕ)
    → header_text (entry ∷ entries) ++ rest
      ≡ field_line entry ++ (line_end ++ (header_text entries ++ rest))
unfolding header_text
reassoc entry entries rest = append_assoc (field_line entry) (line_end ++ header_text entries) rest

-- The blank line ends the loop.
parse_header_lines_blank :
    (body : List ℕ) (m : SipMessage) → parse_header_lines (lines (line_end ++ body)) m ≡ m
unfolding parse_header_lines lines strip_cr
parse_header_lines_blank body m = refl

pub parse_header_lines-header_text :
    (entries : List (List ℕ × List ℕ)) (m : SipMessage) (body : List ℕ)
    → All IsField entries
    → parse_header_lines (lines (header_text entries ++ (line_end ++ body))) m
      ≡ record m { headers = stored entries m.headers }
unfolding header_text parse_header_lines set_header
parse_header_lines-header_text [] m body h = parse_header_lines_blank body m
parse_header_lines-header_text (entry ∷ entries) m body (f, fs) =
    let more = header_text entries ++ (line_end ++ body) in
    let rest = parse_header_lines-header_text entries (set_header m entry.0 entry.1) body fs in
    rw
      (
        reassoc entry entries (line_end ++ body),
        lines-line (field_line entry) more (header_line_whole entry f),
        parse_header_lines,
        strip_cr-append (field_line entry),
        header_line_some entry,
        add_header_line-field_line m entry f,
      )
      rest

-- No line of a field is blank.
header_line_apart :
    (entry : List ℕ × List ℕ) (rest : List ℕ)
    → without 10 entry.0 ≡ true
    → begins line_end (field_line entry ++ rest) ≡ false
unfolding begins
header_line_apart ([], value) rest h = refl
header_line_apart (c ∷ [], value) rest h = ground arith
header_line_apart (c ∷ (d ∷ ds), value) rest h =
    let apart : (10 == d) ≡ false =
      ground (arith, without_first 10 d ds (without_rest 10 c (d ∷ ds) h)) in
    ground arith

pub body_of-header_text :
    (entries : List (List ℕ × List ℕ)) (first body : List ℕ)
    → without 10 first ≡ true
    → All IsField entries
    → body_of (first ++ (line_end ++ (header_text entries ++ (line_end ++ body)))) ≡ body
unfolding header_text
body_of-header_text [] first body h fs = body_of_last first body h
body_of-header_text (entry ∷ entries) first body h (f, fs) =
    let more = line_end ++ (header_text entries ++ (line_end ++ body)) in
    rw (reassoc entry entries (line_end ++ body)) (
      body_of-line first (field_line entry ++ more) h (header_line_apart entry more f.name_whole)
      ∙ body_of-header_text entries (field_line entry) body (header_line_whole entry f) fs)

-- A map of headers: names in lower case, each of them once.
abbrev pub IsMap : List (List ℕ × List ℕ) → Type 0
IsMap [] = Unit
IsMap (entry ∷ entries) =
    (map to_lower entry.0 ≡ entry.0) × (lookup entry.0 entries ≡ none) × IsMap entries

abbrev pub or_else : Option (List ℕ) → Option (List ℕ) → Option (List ℕ)
or_else none other = other
or_else (some value) other = some value

pub lookup-stored :
    (entries headers : List (List ℕ × List ℕ)) (name : List ℕ)
    → IsMap entries
    → lookup name (stored entries headers) ≡ or_else (lookup name entries) (lookup name headers)
unfolding lookup
lookup-stored [] headers name h = refl
lookup-stored (entry ∷ entries) headers name (low, once, h) =
    let rest = lookup-stored entries (assign headers entry.0 entry.1) name h in
    let here = lookup-assign headers entry.0 name entry.1 in
    rw (low, rest, here)
      (elim (Bool-cases (same_text entry.0 name)) [
        | inl same ↦
            let absent : lookup name entries ≡ none = rw (← same_text-eq entry.0 name same) once in
            rw (absent, lookup, same) refl
        | inr differs ↦ rw (lookup, differs) refl
      ])
