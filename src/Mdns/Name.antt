-- ===== src/Mdns/Name.antt =====
-- `EncodeName` and `DecodeName` of src/mdns/dns_message.cpp.
pub mod RoundTrip
pub mod Endless
use ai_camera.Base.{
  ℕ, zero, suc, ◌+◌, ◌-◌, ◌*◌, ◌/◌, ◌%◌, ◌^◌, ◌≤◌, ◌<◌, ◌≡◌, refl, sym, ap, ◌∙◌, ◌≢◌, ◌↔◌, ◌⊎◌, inl,
  inr, Bool, true, false, not, ◌&&◌, ◌||◌, Option, none, some, List, [], ◌∷◌, ◌++◌, map, arith,
  dec_lt, dec_le, ℕ_discrete, ltb, leb, ◌==◌, if◌then◌else◌, ltb→lt, lt→ltb, ltb_false→le,
  le→ltb_false, ==_iff, ==_refl, Bool-cases, Option-cases, codes, length, get_or, take, drop,
  replicate, All, length-append, length-take, length-drop, take-append-drop, take-length,
  drop-length, take-append_le, drop-append_le, get_or-append_left, All-append, All-take, All-drop,
}
use ai_camera.Mdns.Types.{Result, ok, thrown, out_of_fuel, ◌>>=◌}

abbrev pub dot : ℕ
dot = b'.'

-- The characters before the first dot.
unfoldable pub label_of : List ℕ → List ℕ
label_of [] = []
label_of (c ∷ cs) = if c == dot then [] else c ∷ label_of cs

-- The loop of `EncodeName`, on the text from `start` on.
unfoldable pub encode_labels : ℕ → List ℕ → Result (List ℕ)
encode_labels fuel [] = ok (0 ∷ [])
encode_labels zero (c ∷ cs) = out_of_fuel
encode_labels (suc fuel) (c ∷ cs) =
    let label = label_of (c ∷ cs) in
    elim (ltb 63 (length label)) [
      | true ↦ thrown
      | false ↦
          encode_labels fuel (drop (suc (length label)) (c ∷ cs))
          >>= (λ bytes. ok (length label ∷ (label ++ bytes)))
    ]

-- `ends_with(".")`, and the text without its last character.
abbrev ends_with_dot : List ℕ → Bool
ends_with_dot name = ltb 0 (length name) && get_or name (length name - 1) 0 == dot

abbrev pub without_dot : List ℕ → List ℕ
without_dot name = if ends_with_dot name then take (length name - 1) name else name

unfoldable pub encode_name : List ℕ → Result (List ℕ)
encode_name name =
    let sv = without_dot name in
    if length name == 0 || (length name == 1 && get_or name 0 0 == dot)
    then ok (0 ∷ [])
    else encode_labels (length sv) sv

-- A label behind the name so far.
abbrev pub add_label : List ℕ → List ℕ → List ℕ
add_label name label = (if length name == 0 then name else name ++ (dot ∷ [])) ++ label

-- A name that was pointed to, behind the name so far.
abbrev pub add_pointed : List ℕ → List ℕ → List ℕ
add_pointed name pointed =
    (if length name == 0 || length pointed == 0 then name else name ++ (dot ∷ [])) ++ pointed

-- The loop of `DecodeName` with `result` so far, and its calls of itself; the offset behind the name
-- is returned with it.
unfoldable pub decode_name : ℕ → List ℕ → ℕ → List ℕ → Result (List ℕ × ℕ)
decode_name zero bytes offset name = out_of_fuel
decode_name (suc fuel) bytes offset name =
    let first = get_or bytes offset 0 in
    elim (ltb offset (length bytes)) [
      | false ↦ ok (name, offset)
      | true ↦ elim (first == 0) [
        | true ↦ ok (name, offset + 1)
        | false ↦ elim (first / 64 == 3) [
          | true ↦ elim (leb (length bytes) (offset + 1)) [
            | true ↦ thrown
            | false ↦
                decode_name fuel bytes (first % 64 * 256 + get_or bytes (offset + 1) 0) []
                >>= (λ pointed. ok (add_pointed name pointed.0, offset + 2))
          ]
          | false ↦ elim (ltb (length bytes) (offset + 1 + first)) [
            | true ↦ thrown
            | false ↦
                decode_name fuel bytes (offset + 1 + first)
                  (add_label name (take first (drop (offset + 1) bytes)))
          ]
        ]
      ]
    ]
