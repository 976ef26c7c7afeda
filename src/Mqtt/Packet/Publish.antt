-- ===== src/Mqtt/Packet/Publish.antt =====
-- PUBLISH packets of src/mqtt/mqtt_client.cpp, written and read.
use ai_camera.Base.{
  ℕ, suc, ◌+◌, ◌*◌, ◌/◌, ◌%◌, ◌^◌, ◌<◌, ◌≡◌, refl, ap, ◌∙◌, inl, inr, Bool, true, false, some, List,
  [], ◌∷◌, ◌++◌, arith, ltb, ◌==◌, if◌then◌else◌, lt→ltb, Bool-cases, if_true, length, get_or, drop,
  length-append, take-length, drop-length,
}
use ai_camera.Mqtt.Packet.{
  encode_length, encode_remaining_length, decode_remaining_length, word_bytes, write_utf8,
  packet_of, build_publish_packet, publish_payload, publish_fields, read_publish,
}
use ai_camera.Mqtt.Packet.Lengths.{decode_remaining_length-encode}

-- What stands behind the remaining length.
abbrev pub publish_body : List ℕ → List ℕ → ℕ → ℕ → List ℕ
publish_body topic payload qos id =
    write_utf8 topic ++ ((if qos == 0 then [] else word_bytes id) ++ payload)

encode_length_some : (fuel n : ℕ) → (length (encode_length (suc fuel) n) == 0) ≡ false
unfolding encode_length
encode_length_some fuel n = elim (Bool-cases (ltb 0 (n / 128))) [
  | inl more ↦ rw (encode_length, more) (ground arith)
  | inr last ↦ rw (encode_length, last) refl
]

drop_body : (byte0 : ℕ) (xs ys : List ℕ) → drop (1 + length xs) (byte0 ∷ (xs ++ ys)) ≡ ys
drop_body byte0 xs ys = rw (one_more (length xs)) (drop-length xs ys)
  where
    one_more : (n : ℕ) → 1 + n ≡ suc n
    one_more n = omega arith

publish_payload-word :
    (qos id : ℕ) (topic payload : List ℕ)
    → publish_payload qos topic ((if qos == 0 then [] else word_bytes id) ++ payload)
      ≡ some (topic, if qos == 0 then 0 else id, payload)
unfolding publish_payload
publish_payload-word qos id topic payload = elim (Bool-cases (qos == 0)) [
  | inl none_sent ↦ rw (publish_payload, none_sent) refl
  | inr e ↦
      let long : ltb (suc (suc (length payload))) 2 ≡ false = ground arith in
      let same : id / 256 * 256 + id % 256 ≡ id = omega arith in
      rw (publish_payload, e, long, same) refl
]

publish_fields-body :
    (topic payload : List ℕ) (qos id : ℕ)
    → length topic < 2 ^ 16
    → publish_fields qos (publish_body topic payload qos id)
      ≡ some (topic, if qos == 0 then 0 else id, payload)
unfolding publish_fields write_utf8
publish_fields-body topic payload qos id small =
    let rest = (if qos == 0 then [] else word_bytes id) ++ payload in
    let long : ltb (suc (suc (length (topic ++ rest)))) 2 ≡ false = ground arith in
    let len : length topic % 2 ^ 16 / 256 * 256 + length topic % 2 ^ 16 % 256 ≡ length topic =
      omega arith in
    let whole : ltb (length (topic ++ rest)) (length topic) ≡ false =
      ground (arith, length-append topic rest) in
    rw (publish_fields, long, len, whole, take-length topic rest, drop-length topic rest)
      (publish_payload-word qos id topic payload)

read_publish_behind :
    (byte0 : ℕ) (bytes body : List ℕ) (n : ℕ)
    → decode_remaining_length (bytes ++ body) ≡ (n, length bytes)
    → (length bytes == 0) ≡ false
    → read_publish (byte0 ∷ (bytes ++ body)) ≡ publish_fields (byte0 / 2 % 4) body
unfolding read_publish
read_publish_behind byte0 bytes body n e some_bytes =
    rw (read_publish, e, some_bytes, drop_body byte0 bytes body) refl

-- A PUBLISH of a topic of fewer than 2^16 bytes, of level 0, 1 or 2, with fewer than 2^21 bytes behind its
-- remaining length: its topic, payload and level are read back, and the identifier where it has one.
pub read_publish-build_publish_packet :
    (topic payload : List ℕ) (qos id : ℕ) (retain : Bool)
    → length topic < 2 ^ 16
    → qos < 3
    → length (publish_body topic payload qos id) < 2 ^ 21
    → (read_publish (build_publish_packet topic payload qos retain id)
        ≡ some (topic, if qos == 0 then 0 else id, payload))
      × (get_or (build_publish_packet topic payload qos retain id) 0 0 / 2 % 4 ≡ qos)
unfolding build_publish_packet packet_of
read_publish-build_publish_packet topic payload qos id retain small level fits =
    let body = publish_body topic payload qos id in
    let n = length body in
    let byte0 = 48 + qos % 4 * 2 + (if retain then 1 else 0) in
    let below : ltb n (2 ^ 21) ≡ true = lt→ltb n (2 ^ 21) fits in
    let read =
      decode_remaining_length-encode n body (omega (arith, fits))
      ∙ if_true (ltb n (2 ^ 21)) (n, length (encode_remaining_length n)) (0, 0) below in
    let told : byte0 / 2 % 4 ≡ qos = ground arith in
    (
      read_publish_behind byte0 (encode_remaining_length n) body n read
            (encode_length_some 4 (n % 2 ^ 32))
          ∙ ap (λ q. publish_fields q body) told
          ∙ publish_fields-body topic payload qos id small,
      told,
    )
