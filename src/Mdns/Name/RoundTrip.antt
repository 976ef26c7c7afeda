-- ===== src/Mdns/Name/RoundTrip.antt =====
-- The names that `EncodeName` of src/mdns/dns_message.cpp writes, as `DecodeName` reads them.
use ai_camera.Base.{
  ℕ, zero, suc, ◌+◌, ◌-◌, ◌/◌, ◌≤◌, ◌<◌, ◌≡◌, refl, sym, ap, ◌∙◌, Bool, true, false, ◌&&◌, List, [],
  ◌∷◌, ◌++◌, arith, ltb, ◌==◌, length, get_or, take, drop, All, length-append, length-drop,
  take-length, drop-length,
}
use mathlib.Core.List.{append_assoc, append-nil}
use ai_camera.Mdns.Types.{ok}
use ai_camera.Mdns.Name.{dot, label_of, encode_labels, encode_name, add_label, decode_name}

-- A label that `EncodeName` accepts and that has no dot in it.
pub record IsLabel (label : List ℕ) : Type 0 where
  pub not_empty : 0 < length label
  pub short : length label < 64
  pub no_dot : All (λ c. (c == dot) ≡ false) label

-- Labels behind a first one, each behind a dot, and labels with dots between them.
abbrev pub dotted : List (List ℕ) → List ℕ
dotted [] = []
dotted (l ∷ ls) = dot ∷ (l ++ dotted ls)

abbrev pub text : List (List ℕ) → List ℕ
text [] = []
text (l ∷ ls) = l ++ dotted ls

-- RFC 1035, section 3.1: labels behind their lengths, and a zero.
abbrev pub wire : List (List ℕ) → List ℕ
wire [] = 0 ∷ []
wire (l ∷ ls) = length l ∷ (l ++ wire ls)

label_of-dotted :
    (l : List ℕ) (ls : List (List ℕ))
    → All (λ c. (c == dot) ≡ false) l
    → label_of (l ++ dotted ls) ≡ l
unfolding label_of
label_of-dotted [] [] h = refl
label_of-dotted [] (m ∷ ms) h = refl
label_of-dotted (c ∷ cs) ls (h, hs) = rw (h, label_of-dotted cs ls hs) refl

drop-dotted : (l : List ℕ) (ls : List (List ℕ)) → drop (suc (length l)) (l ++ dotted ls) ≡ text ls
drop-dotted [] [] = refl
drop-dotted [] (m ∷ ms) = refl
drop-dotted (c ∷ cs) ls = drop-dotted cs ls

encode_labels-text :
    (fuel : ℕ) (ls : List (List ℕ))
    → All IsLabel ls
    → length (text ls) ≤ fuel
    → encode_labels fuel (text ls) ≡ ok (wire ls)
unfolding encode_labels
encode_labels-text fuel [] h enough = refl
encode_labels-text fuel ([] ∷ ls) (h, hs) enough = elim h.not_empty [ ]
encode_labels-text zero ((c ∷ cs) ∷ ls) (h, hs) enough = elim enough [ ]
encode_labels-text (suc fuel) ((c ∷ cs) ∷ ls) (h, hs) enough =
    let rest =
      encode_labels-text fuel ls hs (omega (arith, length-append cs (dotted ls), shorter ls)) in
    let label : label_of (c ∷ (cs ++ dotted ls)) ≡ c ∷ cs = label_of-dotted (c ∷ cs) ls h.no_dot in
    let fits : ltb 63 (length (label_of (c ∷ (cs ++ dotted ls)))) ≡ false =
      rw label (ground (arith, h.short)) in
    let behind : drop (suc (length (label_of (c ∷ (cs ++ dotted ls))))) (c ∷ (cs ++ dotted ls))
        ≡ text ls =
      rw label (drop-dotted (c ∷ cs) ls) in
    rw (encode_labels, fits, behind, rest, label) refl
  where
    shorter : (ls : List (List ℕ)) → length (text ls) ≤ length (dotted ls)
    shorter [] = omega arith
    shorter (m ∷ ms) = omega arith

get_or-drop : (n : ℕ) (xs : List ℕ) → get_or xs n 0 ≡ get_or (drop n xs) 0 0
get_or-drop zero xs = refl
get_or-drop (suc n) [] = refl
get_or-drop (suc n) (x ∷ xs) = get_or-drop n xs

drop-nil : (k : ℕ) → drop {A = ℕ} k [] ≡ []
drop-nil zero = refl
drop-nil (suc k) = refl

drop-drop_lem : (n m : ℕ) (xs : List ℕ) → drop (n + m) xs ≡ drop m (drop n xs)
drop-drop_lem zero m xs = rw (zero_add m) refl
  where
    zero_add : (m : ℕ) → 0 + m ≡ m
    zero_add m = omega arith
drop-drop_lem (suc n) m [] = drop-nil (suc n + m) ∙ sym (drop-nil m)
drop-drop_lem (suc n) m (x ∷ xs) = rw (suc_add n m) (drop-drop_lem n m xs)
  where
    suc_add : (n m : ℕ) → suc n + m ≡ suc (n + m)
    suc_add n m = omega arith

-- The name that the labels make behind a name so far.
abbrev added : List ℕ → List (List ℕ) → List ℕ
added name [] = name
added name (l ∷ ls) = added (add_label name l) ls

decode_name-wire :
    (ls : List (List ℕ)) (fuel : ℕ) (bytes : List ℕ) (offset : ℕ) (name : List ℕ) (rest : List ℕ)
    → All IsLabel ls
    → length ls < fuel
    → drop offset bytes ≡ wire ls ++ rest
    → decode_name fuel bytes offset name ≡ ok (added name ls, offset + length (wire ls))
unfolding decode_name
decode_name-wire ls zero bytes offset name rest h enough there = elim enough [ ]
decode_name-wire [] (suc fuel) bytes offset name rest h enough there =
    let first : get_or bytes offset 0 ≡ 0 = get_or-drop offset bytes ∙ rw there refl in
    let inside : ltb offset (length bytes) ≡ true =
      ground (arith, length-drop offset bytes, ap length there) in
    rw (inside, decode_name, first) refl
decode_name-wire (l ∷ ls) (suc fuel) bytes offset name rest (h, hs) enough there =
    let first : get_or bytes offset 0 ≡ length l = get_or-drop offset bytes ∙ rw there refl in
    let total : suc (length l + (length (wire ls ++ rest))) ≡ length bytes - offset = omega (
      arith,
      length-drop offset bytes,
      ap length there,
      length-append l (wire ls),
      length-append l (wire ls ++ rest),
      ap length (append_assoc l (wire ls) rest),
    ) in
    let inside : ltb offset (length bytes) ≡ true = ground arith in
    let not_zero : (get_or bytes offset 0 == 0) ≡ false = ground (arith, h.not_empty) in
    let no_pointer : (get_or bytes offset 0 / 64 == 3) ≡ false = ground (arith, h.short) in
    let whole : ltb (length bytes) (offset + 1 + get_or bytes offset 0) ≡ false =
      ground (arith, first, total, length-append l (wire ls ++ rest)) in
    let behind_length : drop (offset + 1) bytes ≡ l ++ (wire ls ++ rest) =
      drop-drop_lem offset 1 bytes ∙ rw there (append_assoc l (wire ls) rest) in
    let behind : drop (offset + 1 + length l) bytes ≡ wire ls ++ rest =
      drop-drop_lem (offset + 1) (length l) bytes
      ∙ rw behind_length (drop-length l (wire ls ++ rest)) in
    let label : take (length l) (drop (offset + 1) bytes) ≡ l =
      rw behind_length (take-length l (wire ls ++ rest)) in
    let others =
      decode_name-wire ls fuel bytes (offset + 1 + length l) (add_label name l) rest hs
        (omega arith) behind in
    let end : offset + 1 + length l + length (wire ls) ≡ offset + length (wire (l ∷ ls)) =
      omega (arith, length-append l (wire ls)) in
    rw (inside, decode_name, not_zero, no_pointer, whole, first, label, others, end) refl

added-dotted :
    (name : List ℕ) (ls : List (List ℕ)) → 0 < length name → added name ls ≡ name ++ dotted ls
added-dotted name [] h = sym (append-nil name)
added-dotted name (l ∷ ls) h =
    let some_name : (length name == 0) ≡ false = ground arith in
    let longer : 0 < length ((name ++ (dot ∷ [])) ++ l) =
      omega (arith, length-append (name ++ (dot ∷ [])) l, length-append name (dot ∷ [])) in
    rw some_name (
      added-dotted ((name ++ (dot ∷ [])) ++ l) ls longer
      ∙ append_assoc (name ++ (dot ∷ [])) l (dotted ls)
      ∙ append_assoc name (dot ∷ []) (l ++ dotted ls))

-- The last character.
abbrev final : List ℕ → ℕ
final [] = 0
final (x ∷ []) = x
final (x ∷ (y ∷ ys)) = final (y ∷ ys)

get_or-final : (x : ℕ) (xs : List ℕ) → get_or (x ∷ xs) (length xs) 0 ≡ final (x ∷ xs)
get_or-final x [] = refl
get_or-final x (y ∷ ys) = get_or-final y ys

final-dotted :
    (c : ℕ) (cs : List ℕ) (ls : List (List ℕ))
    → All (λ d. (d == dot) ≡ false) (c ∷ cs)
    → All IsLabel ls
    → (final (c ∷ (cs ++ dotted ls)) == dot) ≡ false
final-dotted c (d ∷ ds) ls (h, hs) k = final-dotted d ds ls hs k
final-dotted c [] [] (h, hs) k = h
final-dotted c [] ([] ∷ ls) h (k, ks) = elim k.not_empty [ ]
final-dotted c [] ((d ∷ ds) ∷ ls) h (k, ks) = final-dotted d ds ls k.no_dot ks

encode_name-text :
    (l : List ℕ) (ls : List (List ℕ))
    → All IsLabel (l ∷ ls)
    → encode_name (text (l ∷ ls)) ≡ ok (wire (l ∷ ls))
unfolding encode_name
encode_name-text [] ls (h, hs) = elim h.not_empty [ ]
encode_name-text (c ∷ cs) ls (h, hs) =
    let last : (get_or (c ∷ (cs ++ dotted ls)) (suc (length (cs ++ dotted ls)) - 1) 0 == dot)
        ≡ false =
      rw (one_less (length (cs ++ dotted ls)), get_or-final c (cs ++ dotted ls))
        (final-dotted c cs ls h.no_dot hs) in
    let some_text : (suc (length (cs ++ dotted ls)) == 0) ≡ false = ground arith in
    let no_dot : (c == dot) ≡ false = h.no_dot.0 in
    let positive : ltb 0 (suc (length (cs ++ dotted ls))) ≡ true = ground arith in
    rw (last, some_text, no_dot, positive, and_false (suc (length (cs ++ dotted ls)) == 1))
      (encode_labels-text (suc (length (cs ++ dotted ls))) ((c ∷ cs) ∷ ls) (h, hs) (omega arith))
  where
    one_less : (n : ℕ) → suc n - 1 ≡ n
    one_less n = omega arith

    and_false : (b : Bool) → (b && false) ≡ false
    and_false true = refl
    and_false false = refl

-- Labels of 1 to 63 characters with no dot in them, joined by dots: `EncodeName` gives their lengths
-- and characters in order and a zero, as RFC 1035 says; and `DecodeName`, wherever these bytes stand
-- in a message, gives the name back and the offset behind them, with more fuel than there are labels.
pub encode_name-decode_name :
    (fuel : ℕ) (l : List ℕ) (ls : List (List ℕ)) (front rest : List ℕ)
    → All IsLabel (l ∷ ls)
    → length (l ∷ ls) < fuel
    → (encode_name (text (l ∷ ls)) ≡ ok (wire (l ∷ ls)))
      × (decode_name fuel (front ++ (wire (l ∷ ls) ++ rest)) (length front) []
          ≡ ok (text (l ∷ ls), length front + length (wire (l ∷ ls))))
encode_name-decode_name fuel l ls front rest h enough = (
  encode_name-text l ls h,
  decode_name-wire (l ∷ ls) fuel (front ++ (wire (l ∷ ls) ++ rest)) (length front) [] rest h enough
        (drop-length front (wire (l ∷ ls) ++ rest))
      ∙ ap (λ (name : List ℕ). ok (name, length front + length (wire (l ∷ ls))))
          (added-dotted l ls h.0.not_empty),
)
