-- ===== src/Mqtt/Packet.antt =====
-- The packets of src/mqtt/mqtt_client.cpp. A level of service is its number, a byte a number below 256.
pub mod Lengths
pub mod Publish
use ai_camera.Base.{
  ℕ, zero, suc, ◌+◌, ◌-◌, ◌*◌, ◌/◌, ◌%◌, ◌^◌, ◌≤◌, ◌<◌, ◌≡◌, refl, sym, ap, ◌∙◌, ◌≢◌, ◌↔◌, ◌⊎◌, inl,
  inr, Bool, true, false, not, ◌&&◌, ◌||◌, Option, none, some, List, [], ◌∷◌, ◌++◌, map, arith,
  dec_lt, dec_le, ℕ_discrete, ltb, leb, ◌==◌, if◌then◌else◌, ltb→lt, lt→ltb, ltb_false→le,
  le→ltb_false, ==_iff, ==_refl, Bool-cases, Option-cases, if_true, if_false, if_either, codes,
  length, get_or, take, drop, replicate, All, length-append, length-take, length-drop,
  take-append-drop, take-length, drop-length, take-append_le, drop-append_le, get_or-append_left,
  All-append, All-take, All-drop,
}
use ai_camera.Base.Bytes.{to_u16, to_u32}

-- The loop; five rounds are enough for 32 bits.
unfoldable pub encode_length : ℕ → ℕ → List ℕ
encode_length zero len = []
encode_length (suc fuel) len = elim (ltb 0 (len / 128)) [
  | true ↦ (len % 128 + 128) ∷ encode_length fuel (len / 128)
  | false ↦ len % 128 ∷ []
]

abbrev pub encode_remaining_length : ℕ → List ℕ
encode_remaining_length len = encode_length 5 (to_u32 len)

-- The loop: the value and the bytes consumed, none of them where it is given up.
unfoldable pub decode_length : List ℕ → ℕ → ℕ → ℕ → ℕ × ℕ
decode_length [] multiplier value i = (0, 0)
decode_length (b ∷ bs) multiplier value i =
    let value1 = to_u32 (value + b % 128 * multiplier) in
    let multiplier1 = to_u32 (multiplier * 128) in
    let rest = decode_length bs multiplier1 value1 (suc i) in
    if ltb (128 * 128 * 128) multiplier1
    then (0, 0)
    else if leb 128 b
    then rest
    else (value1, suc i)

unfoldable pub decode_remaining_length : List ℕ → ℕ × ℕ
decode_remaining_length data_bytes = decode_length data_bytes 1 0 0

-- Two bytes, the high one first.
abbrev pub word_bytes : ℕ → List ℕ
word_bytes n = n / 256 ∷ n % 256 ∷ []

abbrev pub be16 : List ℕ → ℕ
be16 bytes = get_or bytes 0 0 * 256 + get_or bytes 1 0

unfoldable pub write_utf8 : List ℕ → List ℕ
write_utf8 s = word_bytes (to_u16 (length s)) ++ s

-- A packet of a first byte and what stands behind the remaining length.
unfoldable pub packet_of : ℕ → List ℕ → List ℕ
packet_of byte0 variable = byte0 ∷ (encode_remaining_length (length variable) ++ variable)

-- `MqttConfig`, what the packets and the timers read.
pub record MqttConfig : Type 0 where
  pub client_id : List ℕ
  pub username : List ℕ
  pub password : List ℕ
  pub clean_session : Bool
  pub will_topic : List ℕ
  pub will_payload : List ℕ
  pub will_qos : ℕ
  pub will_retain : Bool
  pub keep_alive_seconds : ℕ

abbrev pub flag : Bool → ℕ → ℕ
flag b n = if b then n else 0

abbrev pub present : List ℕ → Bool
present s = not (length s == 0)

unfoldable pub connect_flags : MqttConfig → ℕ
connect_flags c =
    flag c.clean_session 2
    + flag (present c.username) 128
    + flag (present c.password) 64
    + (if present c.will_topic then 4 + c.will_qos % 4 * 8 + flag c.will_retain 32 else 0)

unfoldable pub build_connect_packet : MqttConfig → List ℕ
build_connect_packet c = packet_of 16 (
    write_utf8 (codes "MQTT")
    ++ (4
        ∷ connect_flags c
        ∷ (word_bytes c.keep_alive_seconds
            ++ (write_utf8 c.client_id
                ++ ((if present c.will_topic
                      then write_utf8 c.will_topic ++ write_utf8 c.will_payload
                      else [])
                    ++ (if present c.username
                        then write_utf8 c.username
                          ++ (if present c.password then write_utf8 c.password else [])
                        else []))))))

unfoldable pub build_publish_packet : List ℕ → List ℕ → ℕ → Bool → ℕ → List ℕ
build_publish_packet topic payload qos retain packet_id =
    packet_of (48 + qos % 4 * 2 + flag retain 1)
      (write_utf8 topic ++ ((if qos == 0 then [] else word_bytes packet_id) ++ payload))

unfoldable pub build_subscribe_packet : List ℕ → ℕ → ℕ → List ℕ
build_subscribe_packet topic qos pid =
    packet_of 130 (word_bytes pid ++ (write_utf8 topic ++ (qos % 4 ∷ [])))

unfoldable pub build_unsubscribe_packet : List ℕ → ℕ → List ℕ
build_unsubscribe_packet topic pid = packet_of 162 (word_bytes pid ++ write_utf8 topic)

abbrev pub ping_req_packet : List ℕ
ping_req_packet = 192 ∷ 0 ∷ []

abbrev pub disconnect_packet : List ℕ
disconnect_packet = 224 ∷ 0 ∷ []

-- PUBACK, PUBREC, PUBREL and PUBCOMP, by their first byte.
abbrev pub ack_packet : ℕ → ℕ → List ℕ
ack_packet byte0 packet_id = byte0 ∷ 2 ∷ word_bytes packet_id

abbrev pub puback : ℕ
puback = 64

abbrev pub pubrec : ℕ
pubrec = 80

abbrev pub pubrel : ℕ
pubrel = 98

abbrev pub pubcomp : ℕ
pubcomp = 112

-- The topic, the identifier and the payload of a PUBLISH behind its remaining length: `none` where
-- bytes are missing.
unfoldable pub publish_payload : ℕ → List ℕ → List ℕ → Option (List ℕ × ℕ × List ℕ)
publish_payload qos topic rest =
    if qos == 0
    then some (topic, 0, rest)
    else if ltb (length rest) 2
    then none
    else some (topic, be16 rest, drop 2 rest)

unfoldable pub publish_fields : ℕ → List ℕ → Option (List ℕ × ℕ × List ℕ)
publish_fields qos rest =
    let topic_len = be16 rest in
    let behind = drop 2 rest in
    if ltb (length rest) 2
    then none
    else if ltb (length behind) topic_len
    then none
    else publish_payload qos (take topic_len behind) (drop topic_len behind)

unfoldable pub read_publish : List ℕ → Option (List ℕ × ℕ × List ℕ)
read_publish packet =
    let (remaining_len, consumed) = decode_remaining_length (drop 1 packet) in
    if consumed == 0
    then none
    else publish_fields (get_or packet 0 0 / 2 % 4) (drop (1 + consumed) packet)
