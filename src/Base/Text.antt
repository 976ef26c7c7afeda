-- ===== src/Base/Text.antt =====
-- Text as lists of bytes, with what the sources use of `std::string`, of the number conversions and
-- of `std::map` from text. A map is the list of its entries in the order of their keys.
use Prim.Native.Nat.{ℕ, zero, suc, ◌+◌, ◌-◌, ◌*◌, ◌/◌, ◌%◌, ◌<◌}
use mathlib.Core.Path.{◌≡◌, refl, ◌∙◌}
use mathlib.Core.Logic.{inl, inr}
use mathlib.Core.Bool.{Bool, true, false, ◌&&◌, ◌||◌}
use mathlib.Core.Option.{Option, none, some}
use mathlib.Core.List.{List, [], ◌∷◌}
use native.Mathlib.Omega.{arith}
use ai_camera.Base.Tests.{Bool-cases, ltb, leb, ◌==◌, if◌then◌else◌, ==_refl}
use ai_camera.Base.Lists.{length, drop}

unfoldable pub same_text : List ℕ → List ℕ → Bool
same_text [] [] = true
same_text (a ∷ xs) (b ∷ ys) = a == b && same_text xs ys
same_text _ _ = false

pub same_text-eq : (xs ys : List ℕ) → same_text xs ys ≡ true → xs ≡ ys
unfolding same_text
same_text-eq [] [] h = refl
same_text-eq [] (b ∷ ys) h = cc
same_text-eq (a ∷ xs) [] h = cc
same_text-eq (a ∷ xs) (b ∷ ys) h = ground (arith, same_text-eq xs ys)

pub same_text_refl : (xs : List ℕ) → same_text xs xs ≡ true
unfolding same_text
same_text_refl [] = refl
same_text_refl (a ∷ xs) = rw (==_refl a, same_text_refl xs) refl

pub same_text_sym : (xs ys : List ℕ) → same_text xs ys ≡ same_text ys xs
unfolding same_text
same_text_sym [] [] = refl
same_text_sym [] (b ∷ ys) = refl
same_text_sym (a ∷ xs) [] = refl
same_text_sym (a ∷ xs) (b ∷ ys) = ground (arith, same_text_sym xs ys)

-- What `std::getline` reads from a stream, one call after the other, is the list of its lines.
unfoldable pub cons_line : ℕ → List (List ℕ) → List (List ℕ)
cons_line c [] = (c ∷ []) ∷ []
cons_line c (l ∷ ls) = (c ∷ l) ∷ ls

unfoldable pub lines : List ℕ → List (List ℕ)
unfolding cons_line
lines [] = []
lines (c ∷ cs) = let rest = lines cs in if c == 10 then [] ∷ rest else cons_line c rest

-- The line of the first `getline`, empty when it fails, and the lines behind it.
abbrev pub first_line : List (List ℕ) → List ℕ
first_line [] = []
first_line (l ∷ ls) = l

-- A line less the carriage return at its end.
unfoldable pub strip_cr : List ℕ → List ℕ
strip_cr [] = []
strip_cr (c ∷ []) = if c == 13 then [] else c ∷ []
strip_cr (c ∷ (d ∷ ds)) = c ∷ strip_cr (d ∷ ds)

-- The order of `std::string`.
unfoldable pub text_lt : List ℕ → List ℕ → Bool
text_lt [] [] = false
text_lt [] (b ∷ ys) = true
text_lt (a ∷ xs) [] = false
text_lt (a ∷ xs) (b ∷ ys) = ltb a b || (a == b && text_lt xs ys)

-- Whether a text begins with another, and where it stands first.
unfoldable pub begins : List ℕ → List ℕ → Bool
begins [] text = true
begins (d ∷ ds) [] = false
begins (d ∷ ds) (b ∷ bs) = d == b && begins ds bs

unfoldable pub find : List ℕ → List ℕ → Option ℕ
unfolding begins
find part [] = if begins part [] then some 0 else none
find part (b ∷ bs) =
    if begins part (b ∷ bs)
    then some 0
    else elim (find part bs) [ none ↦ none | some i ↦ some (suc i) ]

abbrev pub contains : List ℕ → List ℕ → Bool
unfolding find
contains part text = elim (find part text) [ none ↦ false | some i ↦ true ]

unfoldable pub find_char : ℕ → List ℕ → Option ℕ
find_char c [] = none
find_char c (b ∷ bs) =
    if b == c then some 0 else elim (find_char c bs) [ none ↦ none | some i ↦ some (suc i) ]

pub find_char-lt : (c : ℕ) (v : List ℕ) (i : ℕ) → find_char c v ≡ some i → i < length v
unfolding find_char
find_char-lt c [] i h = cc
find_char-lt c (d ∷ ds) i h = ground (arith, find_char-lt c ds (i - 1))

abbrev pub is_space : ℕ → Bool
is_space c = c == 32 || (leb 9 c && leb c 13)

unfoldable pub skip_spaces : List ℕ → List ℕ
skip_spaces [] = []
skip_spaces (c ∷ cs) = let rest = skip_spaces cs in if is_space c then rest else c ∷ cs

-- The characters up to the first space.
unfoldable pub word : List ℕ → List ℕ
word [] = []
word (c ∷ cs) = let rest = word cs in if is_space c then [] else c ∷ rest

-- `stream >> text`: the word, which is empty when the extraction fails, and what is left.
unfoldable pub next_word : List ℕ → List ℕ × List ℕ
unfolding skip_spaces word
next_word text = let rest = skip_spaces text in (word rest, drop (length (word rest)) rest)

abbrev pub to_lower : ℕ → ℕ
to_lower c = if leb b'A' c && leb c b'Z' then c + 32 else c

abbrev pub to_upper : ℕ → ℕ
to_upper c = if leb b'a' c && leb c b'z' then c - 32 else c

abbrev pub is_digit : ℕ → Bool
is_digit c = leb b'0' c && leb c b'9'

-- The number that the digits at the front make, behind a number so far, and how many they are.
unfoldable pub digits : List ℕ → ℕ → ℕ → ℕ × ℕ
digits [] value count = (value, count)
digits (c ∷ cs) value count = elim (is_digit c) [
  | true ↦ digits cs (value * 10 + (c - b'0')) (suc count)
  | false ↦ (value, count)
]

-- `std::to_string`, the digits before those so far; a number has fewer digits than its value and one.
unfoldable pub decimal_digits : ℕ → ℕ → List ℕ → List ℕ
decimal_digits zero n after = after
decimal_digits (suc fuel) n after = elim (ltb n 10) [
  | true ↦ (b'0' + n) ∷ after
  | false ↦ decimal_digits fuel (n / 10) ((b'0' + n % 10) ∷ after)
]

abbrev pub to_decimal : ℕ → List ℕ
unfolding decimal_digits
to_decimal n = decimal_digits (suc n) n []

-- `map[key] = value`.
unfoldable pub assign {ℓ} : {V : Type ℓ} → List (List ℕ × V) → List ℕ → V → List (List ℕ × V)
unfolding same_text text_lt
assign [] key value = (key, value) ∷ []
assign (entry ∷ entries) key value =
    if same_text entry.0 key
    then (key, value) ∷ entries
    else if text_lt key entry.0
    then (key, value) ∷ (entry ∷ entries)
    else entry ∷ assign entries key value

unfoldable pub lookup {ℓ} : {V : Type ℓ} → List ℕ → List (List ℕ × V) → Option V
unfolding same_text
lookup key [] = none
lookup key (entry ∷ entries) = if same_text entry.0 key then some entry.1 else lookup key entries

pub lookup-assign {ℓ} :
    {V : Type ℓ} (entries : List (List ℕ × V)) (key other : List ℕ) (value : V)
    → lookup other (assign entries key value)
      ≡ (if same_text key other then some value else lookup other entries)
unfolding assign lookup
lookup-assign [] key other value = refl
lookup-assign (entry ∷ entries) key other value = elim (Bool-cases (same_text entry.0 key)) [
  | inl same ↦ rw (same, same_text-eq entry.0 key same) (ground arith)
  | inr differs ↦ elim (Bool-cases (text_lt key entry.0)) [
    | inl before ↦ rw (differs, before) refl
    | inr behind ↦
        rw (differs, behind)
          (elim (Bool-cases (same_text entry.0 other)) [
            | inl here ↦
                let apart : same_text key other ≡ false =
                  rw (← same_text-eq entry.0 other here) (same_text_sym key entry.0 ∙ differs) in
                rw (here, apart) refl
            | inr there ↦ rw there (lookup-assign entries key other value)
          ])
  ]
]
