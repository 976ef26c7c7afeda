-- ===== src/Sip/Message/Lines.antt =====
-- The lines of a message and the fields on them, src/gb28181/sip_message.cpp.
use mathlib.Core.List.{append_assoc}
use ai_camera.Base.{
  ℕ, suc, ◌+◌, ◌≡◌, refl, ap, ◌∙◌, inl, inr, Bool, true, false, not, ◌&&◌, none, some, List, [],
  ◌∷◌, ◌++◌, arith, ◌==◌, ==_refl, Option-cases, codes, length, drop, take-length,
}
use ai_camera.Base.Text.{lines, cons_line, begins, find, find_char, strip_cr}
use ai_camera.Sip.Types.{SipMessage}
use ai_camera.Sip.Message.{
  set_header, field_line, line_end, blanks_dropped, after_blanks, add_header_line, blank_line,
  body_of,
}

-- Whether a character is nowhere in a text.
unfoldable pub without : ℕ → List ℕ → Bool
without b [] = true
without b (c ∷ cs) = not (c == b) && without b cs

pub without-append :
    (b : ℕ) (xs ys : List ℕ)
    → without b xs ≡ true
    → without b ys ≡ true
    → without b (xs ++ ys) ≡ true
unfolding without
without-append b [] ys h k = k
without-append b (x ∷ xs) ys h k = ground (arith, without-append b xs ys)

pub without_first : (b c : ℕ) (cs : List ℕ) → without b (c ∷ cs) ≡ true → (c == b) ≡ false
unfolding without
without_first b c cs h = ground arith

pub without_rest : (b c : ℕ) (cs : List ℕ) → without b (c ∷ cs) ≡ true → without b cs ≡ true
unfolding without
without_rest b c cs h = ground arith

lines-append :
    (xs rest : List ℕ) → without 10 xs ≡ true → lines (xs ++ (10 ∷ rest)) ≡ xs ∷ lines rest
unfolding lines cons_line
lines-append [] rest h = refl
lines-append (c ∷ cs) rest h =
    rw (without_first 10 c cs h, lines-append cs rest (without_rest 10 c cs h)) refl

-- A line with its end.
pub lines-line :
    (xs rest : List ℕ)
    → without 10 xs ≡ true
    → lines (xs ++ (line_end ++ rest)) ≡ (xs ++ (13 ∷ [])) ∷ lines rest
unfolding without
lines-line xs rest h =
    rw (← append_assoc xs (13 ∷ []) (10 ∷ rest))
      (lines-append (xs ++ (13 ∷ [])) rest (without-append 10 xs (13 ∷ []) h refl))

pub strip_cr-append : (xs : List ℕ) → strip_cr (xs ++ (13 ∷ [])) ≡ xs
unfolding strip_cr
strip_cr-append [] = refl
strip_cr-append (c ∷ []) = refl
strip_cr-append (c ∷ (d ∷ ds)) = ap (◌∷◌ c) (strip_cr-append (d ∷ ds))

-- The search for the blank line goes on behind a byte.
find_nowhere :
    (part : List ℕ) (c : ℕ) (cs : List ℕ)
    → begins part (c ∷ cs) ≡ false
    → find part cs ≡ none
    → find part (c ∷ cs) ≡ none
unfolding find
find_nowhere part c cs h e = rw (find, h, e) refl

find_later :
    (part : List ℕ) (c : ℕ) (cs : List ℕ) (i : ℕ)
    → begins part (c ∷ cs) ≡ false
    → find part cs ≡ some i
    → find part (c ∷ cs) ≡ some (suc i)
unfolding find
find_later part c cs i h e = rw (find, h, e) refl

body_of_next :
    (c : ℕ) (cs : List ℕ) → begins blank_line (c ∷ cs) ≡ false → body_of (c ∷ cs) ≡ body_of cs
unfolding body_of
body_of_next c cs h = elim (Option-cases (find blank_line cs)) [
  | inl e ↦ rw (body_of, find_nowhere blank_line c cs h e, e) refl
  | inr (i, e) ↦ rw (body_of, find_later blank_line c cs i h e, e, one_more i) refl
]
  where
    one_more : (i : ℕ) → suc i + 4 ≡ suc (i + 4)
    one_more i = omega arith

blank_apart :
    (c d : ℕ) (rest : List ℕ) → (d == 10) ≡ false → begins blank_line (c ∷ d ∷ rest) ≡ false
unfolding begins
blank_apart c d rest h = ground arith

-- A line that no blank line follows.
pub body_of-line :
    (xs rest : List ℕ)
    → without 10 xs ≡ true
    → begins line_end rest ≡ false
    → body_of (xs ++ (line_end ++ rest)) ≡ body_of rest
unfolding begins without
body_of-line [] rest h k = body_of_next 13 (10 ∷ rest) k ∙ body_of_next 10 rest refl
body_of-line (c ∷ []) rest h k =
    body_of_next c (13 ∷ 10 ∷ rest) (blank_apart c 13 (10 ∷ rest) refl)
    ∙ body_of-line [] rest refl k
body_of-line (c ∷ (d ∷ ds)) rest h k =
    body_of_next c (d ∷ (ds ++ (line_end ++ rest))) (
      blank_apart c d (ds ++ (line_end ++ rest))
        (without_first 10 d ds (without_rest 10 c (d ∷ ds) h)))
    ∙ body_of-line (d ∷ ds) rest (without_rest 10 c (d ∷ ds) h) k

-- The last line before the blank one.
pub body_of_last :
    (xs body : List ℕ)
    → without 10 xs ≡ true
    → body_of (xs ++ (line_end ++ (line_end ++ body))) ≡ body
unfolding begins body_of find without
body_of_last [] body h = refl
body_of_last (c ∷ []) body h =
    body_of_next c (13 ∷ 10 ∷ 13 ∷ 10 ∷ body) (blank_apart c 13 (10 ∷ 13 ∷ 10 ∷ body) refl)
    ∙ body_of_last [] body refl
body_of_last (c ∷ (d ∷ ds)) body h =
    body_of_next c (d ∷ (ds ++ (line_end ++ (line_end ++ body)))) (
      blank_apart c d (ds ++ (line_end ++ (line_end ++ body)))
        (without_first 10 d ds (without_rest 10 c (d ∷ ds) h)))
    ∙ body_of_last (d ∷ ds) body (without_rest 10 c (d ∷ ds) h)

pub find_char-append :
    (b : ℕ) (xs rest : List ℕ)
    → without b xs ≡ true
    → find_char b (xs ++ (b ∷ rest)) ≡ some (length xs)
unfolding find_char
find_char-append b [] rest h = rw (==_refl b) refl
find_char-append b (c ∷ cs) rest h =
    rw (without_first b c cs h, find_char-append b cs rest (without_rest b c cs h)) refl

pub drop_past : (b : ℕ) (xs rest : List ℕ) → drop (suc (length xs)) (xs ++ (b ∷ rest)) ≡ rest
drop_past b [] rest = refl
drop_past b (x ∷ xs) rest = drop_past b xs rest

-- A text that begins with a character other than a space.
unfoldable pub solid : List ℕ → Bool
solid [] = false
solid (c ∷ cs) = not (c == 32)

pub after_blanks-solid : (value : List ℕ) → solid value ≡ true → after_blanks (32 ∷ value) ≡ value
unfolding after_blanks blanks_dropped solid
after_blanks-solid [] h = cc
after_blanks-solid (c ∷ cs) h =
    let apart : (c == 32) ≡ false = ground arith in
    let some_first : (suc (length cs) == 0) ≡ false = ground arith in rw (apart, some_first) refl

-- A field that a line holds: no colon in the name, no line feed, and a value to begin with.
pub record IsField (entry : List ℕ × List ℕ) : Type 0 where
  pub no_colon : without b':' entry.0 ≡ true
  pub name_whole : without 10 entry.0 ≡ true
  pub value_whole : without 10 entry.1 ≡ true
  pub value_solid : solid entry.1 ≡ true

pub header_line_whole :
    (entry : List ℕ × List ℕ) → IsField entry → without 10 (field_line entry) ≡ true
unfolding without
header_line_whole entry f =
    without-append 10 entry.0 (codes ": " ++ entry.1) f.name_whole
      (without-append 10 (codes ": ") entry.1 refl f.value_whole)

pub add_header_line-field_line :
    (m : SipMessage) (entry : List ℕ × List ℕ)
    → IsField entry
    → add_header_line m (field_line entry) ≡ set_header m entry.0 entry.1
unfolding add_header_line
add_header_line-field_line m entry f =
    rw (add_header_line, find_char-append b':' entry.0 (32 ∷ entry.1) f.no_colon)
      (rw
        (
          take-length entry.0 (b':' ∷ (32 ∷ entry.1)),
          drop_past b':' entry.0 (32 ∷ entry.1),
          after_blanks-solid entry.1 f.value_solid,
        )
        refl)
