-- ===== src/Mqtt/Client.antt =====
-- `MqttClient`, src/mqtt/mqtt_client.cpp. What is posted runs in order, a handler at a time; a read ends
-- with all of the bytes that it asked for, or with an error.
pub mod Ids
pub mod Delivery
use ai_camera.Base.{
  ℕ, zero, suc, ◌+◌, ◌-◌, ◌*◌, ◌/◌, ◌%◌, ◌^◌, ◌≤◌, ◌<◌, ◌≡◌, refl, sym, ap, ◌∙◌, ◌≢◌, ◌↔◌, ◌⊎◌, inl,
  inr, Bool, true, false, not, ◌&&◌, ◌||◌, Option, none, some, List, [], ◌∷◌, ◌++◌, map, arith,
  dec_lt, dec_le, ℕ_discrete, ltb, leb, ◌==◌, if◌then◌else◌, ltb→lt, lt→ltb, ltb_false→le,
  le→ltb_false, ==_iff, ==_refl, Bool-cases, Option-cases, if_true, if_false, if_either, codes,
  length, get_or, take, drop, replicate, All, length-append, length-take, length-drop,
  take-append-drop, take-length, drop-length, take-append_le, drop-append_le, get_or-append_left,
  All-append, All-take, All-drop,
}
use ai_camera.Base.Bytes.{to_u16}
use ai_camera.Mqtt.Packet.{
  decode_remaining_length, be16, MqttConfig, build_connect_packet, build_publish_packet,
  build_subscribe_packet, build_unsubscribe_packet, ping_req_packet, disconnect_packet, ack_packet,
  puback, pubrec, pubrel, pubcomp, read_publish,
}

-- What is handed to `asio::write`, and the callbacks.
pub data MqttEvent : Type 0 where
  wrote : List ℕ → MqttEvent
  connect_changed : Bool → MqttEvent
  message_came : List ℕ → List ℕ → ℕ → Bool → MqttEvent

-- The read that is under way: the header's byte, a byte of the remaining length behind what was read, or
-- so many bytes of the rest.
pub data Reading : Type 0 where
  no_read : Reading
  at_header : Reading
  at_length : List ℕ → ℕ → Reading
  at_rest : List ℕ → ℕ → Reading

pub data Task : Type 0 where
  connect_task : Task
  disconnect_task : Task
  publish_task : List ℕ → List ℕ → ℕ → Bool → Task
  subscribe_task : List ℕ → ℕ → Task
  unsubscribe_task : List ℕ → Task

pub record PendingPublish : Type 0 where
  pub topic : List ℕ
  pub payload : List ℕ
  pub qos : ℕ
  pub retain : Bool
  pub packet_id : ℕ

pub record MqttClient : Type 0 where
  pub config : MqttConfig
  pub posted : List Task
  pub connecting : Bool
  pub connected : Bool
  pub stopped : Bool
  pub next_packet_id : ℕ
  pub pending_publishes : List PendingPublish
  pub reading : Reading
  pub keep_alive_waits : Bool
  pub reconnect_waits : Bool
  pub has_on_connect : Bool
  pub has_on_disconnect : Bool
  pub has_on_message : Bool
  pub events : List MqttEvent

abbrev pub tells : MqttClient → MqttEvent → MqttClient
tells c e = record c { events = c.events ++ (e ∷ []) }

abbrev pub send_packet : MqttClient → List ℕ → MqttClient
send_packet c packet = tells c (wrote packet)

-- The identifier and the counter behind it.
unfoldable pub acquire_packet_id : ℕ → ℕ × ℕ
acquire_packet_id next = if next == 0 then (1, 2) else (next, to_u16 (next + 1))

unfoldable pub notify_connect : MqttClient → Bool → MqttClient
notify_connect c connected =
    if (if connected then c.has_on_connect else c.has_on_disconnect)
    then tells c (connect_changed connected)
    else c

-- Closing the socket breaks the read off with an error, which comes later.
abbrev pub close_socket : MqttClient → MqttClient
close_socket c = record c { connected = false }

unfoldable pub schedule_reconnect : MqttClient → MqttClient
schedule_reconnect c = if c.stopped then c else record c { reconnect_waits = true }

unfoldable pub start_keep_alive_timer : MqttClient → MqttClient
start_keep_alive_timer c =
    if c.config.keep_alive_seconds == 0 then c else record c { keep_alive_waits = true }

unfoldable pub post_task : MqttClient → Task → MqttClient
post_task c t = record c { posted = c.posted ++ (t ∷ []) }

unfoldable pub connect_client : MqttClient → MqttClient
connect_client c = post_task (record c { stopped = false }) connect_task

unfoldable pub disconnect_client : MqttClient → MqttClient
disconnect_client c =
    post_task (record c { stopped = true; reconnect_waits = false }) disconnect_task

unfoldable pub publish : MqttClient → List ℕ → List ℕ → ℕ → Bool → Bool × MqttClient
publish c topic payload qos retain =
    if not c.connected && qos == 0
    then (false, c)
    else (true, post_task c (publish_task topic payload qos retain))

unfoldable pub subscribe_topic : MqttClient → List ℕ → ℕ → MqttClient
subscribe_topic c topic qos = post_task c (subscribe_task topic qos)

unfoldable pub unsubscribe_topic : MqttClient → List ℕ → MqttClient
unsubscribe_topic c topic = post_task c (unsubscribe_task topic)

-- `map.erase` and `map[id] = pending`; the order of the entries is never used.
unfoldable pub erase_pending : List PendingPublish → ℕ → List PendingPublish
erase_pending [] id = []
erase_pending (p ∷ ps) id =
    let rest = erase_pending ps id in if p.packet_id == id then rest else p ∷ rest

unfoldable pub put_pending : List PendingPublish → PendingPublish → List PendingPublish
put_pending ps p = p ∷ erase_pending ps p.packet_id

-- `DoConnect`, told whether the name was resolved.
unfoldable pub do_connect : MqttClient → Bool → MqttClient
do_connect c resolved = if resolved then record c { connecting = true } else schedule_reconnect c

-- The end of the connection's making.
unfoldable pub on_connected : MqttClient → Bool → MqttClient
on_connected c ok =
    let d = record c { connecting = false } in
    if ok
    then record (send_packet d (build_connect_packet c.config)) { reading = at_header }
    else schedule_reconnect d

unfoldable pub run_publish : MqttClient → List ℕ → List ℕ → ℕ → Bool → MqttClient
run_publish c topic payload qos retain =
    let (id, next) = acquire_packet_id c.next_packet_id in
    let pending : PendingPublish = record {
      topic = topic;
      payload = payload;
      qos = qos;
      retain = retain;
      packet_id = id;
    } in
    if qos == 0
    then send_packet c (build_publish_packet topic payload qos retain 0)
    else record (send_packet c (build_publish_packet topic payload qos retain id)) {
      next_packet_id = next;
      pending_publishes = put_pending c.pending_publishes pending;
    }

unfoldable pub run_task : MqttClient → Bool → Task → MqttClient
run_task c resolved connect_task = do_connect c resolved
run_task c resolved disconnect_task =
    let d = if c.connected then send_packet c disconnect_packet else c in
    notify_connect (close_socket d) false
run_task c resolved (publish_task topic payload qos retain) = run_publish c topic payload qos retain
run_task c resolved (subscribe_task topic qos) =
    let (id, next) = acquire_packet_id c.next_packet_id in
    record (send_packet c (build_subscribe_packet topic qos id)) { next_packet_id = next }
run_task c resolved (unsubscribe_task topic) =
    let (id, next) = acquire_packet_id c.next_packet_id in
    record (send_packet c (build_unsubscribe_packet topic id)) { next_packet_id = next }

-- The handlers of packets.
unfoldable pub parse_conn_ack : MqttClient → List ℕ → MqttClient
parse_conn_ack c packet =
    let rc = get_or packet 3 0 in
    let closed = close_socket c in
    if ltb (length packet) 4
    then c
    else if rc == 0
    then start_keep_alive_timer (notify_connect (record c { connected = true }) true)
    else if rc == 1 || rc == 2
    then closed
    else schedule_reconnect closed

unfoldable pub acknowledged : MqttClient → ℕ → ℕ → MqttClient
acknowledged c qos id =
    if qos == 1
    then send_packet c (ack_packet puback id)
    else if qos == 2
    then send_packet c (ack_packet pubrec id)
    else c

unfoldable pub parse_publish : MqttClient → List ℕ → MqttClient
parse_publish c packet = elim (read_publish packet) [
  | none ↦ c
  | some (topic, id, payload) ↦
      let qos = get_or packet 0 0 / 2 % 4 in
      let d = acknowledged c qos id in
      if d.has_on_message
      then tells d (message_came topic payload qos (get_or packet 0 0 % 2 == 1))
      else d
]

abbrev pub id_of : List ℕ → ℕ
id_of packet = be16 (drop 2 packet)

unfoldable pub handle_packet : MqttClient → List ℕ → MqttClient
handle_packet c packet =
    let type = get_or packet 0 0 / 16 in
    let short = ltb (length packet) 4 in
    let erased = record c {
      pending_publishes = erase_pending c.pending_publishes (id_of packet);
    } in
    if type == 2
    then parse_conn_ack c packet
    else if type == 3
    then parse_publish c packet
    else if type == 4 || type == 7
    then (if short then c else erased)
    else if type == 5
    then (if short then c else send_packet c (ack_packet pubrel (id_of packet)))
    else if type == 6
    then (if short then c else send_packet c (ack_packet pubcomp (id_of packet)))
    else c

-- What a failed read does.
unfoldable pub read_failed : MqttClient → MqttClient
read_failed c = schedule_reconnect (notify_connect (record c { reading = no_read }) false)

unfoldable pub whole_packet : MqttClient → List ℕ → MqttClient
whole_packet c packet = record (handle_packet c packet) { reading = at_header }

unfoldable pub on_length_byte : MqttClient → List ℕ → ℕ → ℕ → MqttClient
on_length_byte c header_buf len_bytes_read byte =
    let header = header_buf ++ (byte ∷ []) in
    let (remaining_len, consumed) = decode_remaining_length (drop 1 header) in
    if leb 128 byte
    then (if leb 4 (len_bytes_read + 1)
        then read_failed c
        else record c { reading = at_length header (len_bytes_read + 1) })
    else if consumed == 0
    then read_failed c
    else if ltb 0 remaining_len
    then record c { reading = at_rest header remaining_len }
    else whole_packet c header

-- The bytes that a read asks for have come.
unfoldable pub on_read_bytes : MqttClient → Reading → List ℕ → MqttClient
on_read_bytes c no_read bytes = c
on_read_bytes c at_header bytes = record c { reading = at_length bytes 0 }
on_read_bytes c (at_length header_buf n) bytes = on_length_byte c header_buf n (get_or bytes 0 0)
on_read_bytes c (at_rest packet remaining) bytes = whole_packet c (packet ++ bytes)

unfoldable pub keep_alive_fires : MqttClient → MqttClient
keep_alive_fires c =
    let d = record c { keep_alive_waits = false } in
    if c.connected then start_keep_alive_timer (send_packet d ping_req_packet) else d

unfoldable pub reconnect_fires : MqttClient → Bool → MqttClient
reconnect_fires c resolved =
    let d = record c { reconnect_waits = false } in if c.stopped then d else do_connect d resolved
