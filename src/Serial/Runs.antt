-- ===== src/Serial/Runs.antt =====
-- The theorems on serial framing at concrete inputs, and runs of its definitions.
use ai_camera.Base.{◌≡◌, refl, ◌≢◌, false, none, some, [], ◌∷◌, arith, codes}
use ai_camera.Serial.Protocol.{
  line_on_data, LengthProtocol, length_on_data, split_lengths, create_protocol, line_protocol,
  read_little, payload_len,
}
use ai_camera.Serial.Protocol.Lines.{line_on_data-wrapped}
use ai_camera.Serial.Protocol.Lengths.{split_lengths-ends}

line_on_data-wrapped_example :
    line_on_data 3 (10 ∷ []) (codes "AT") (10 ∷ codes "OK\nA")
    ≡ some (codes "AT" ∷ codes "OK" ∷ [], codes "A")
line_on_data-wrapped_example =
    line_on_data-wrapped 10 (codes "AT" ∷ codes "OK" ∷ []) (codes "A") (codes "AT")
      (10 ∷ codes "OK\nA") ((refl, (refl, tt)), ((refl, (refl, tt)), tt)) (refl, tt) refl

-- A field of two bytes, the low one first.
abbrev two_bytes : LengthProtocol
two_bytes = record { field_size = 2; big_endian = false; offset = 0; max_frame = 4096 }

split_lengths-ends_example : split_lengths 5 two_bytes (1 ∷ 0 ∷ 7 ∷ []) ≢ none
split_lengths-ends_example =
    split_lengths-ends 5 two_bytes (1 ∷ 0 ∷ 7 ∷ []) (omega arith) (omega arith) (omega arith)

length_run :
    length_on_data 5 two_bytes (1 ∷ []) (0 ∷ 7 ∷ 2 ∷ 0 ∷ [])
    ≡ some ((1 ∷ 0 ∷ 7 ∷ []) ∷ [], 2 ∷ 0 ∷ [])
unfolding split_lengths payload_len read_little
length_run = refl

create_run : create_protocol (codes "line") two_bytes ≡ some (line_protocol (10 ∷ []))
unfolding create_protocol
create_run = refl
