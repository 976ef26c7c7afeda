-- ===== src/Mqtt/Runs.antt =====
-- The theorems on MQTT at concrete inputs.
use ai_camera.Base.{◌≤◌, ◌≡◌, refl, ◌≢◌, true, false, [], ◌∷◌, ◌++◌, arith, codes}
use ai_camera.Mqtt.Packet.{
  MqttConfig, encode_length, encode_remaining_length, decode_remaining_length, build_connect_packet,
  connect_flags, packet_of, write_utf8,
}
use ai_camera.Mqtt.Packet.Lengths.{decode_remaining_length-encode}
use ai_camera.Mqtt.Client.{MqttClient, no_read}
use ai_camera.Mqtt.Client.Ids.{nth_id, acquire_packet_id_fresh}

abbrev config : MqttConfig
config = record {
  client_id = codes "cam";
  username = [];
  password = codes "secret";
  clean_session = true;
  will_topic = [];
  will_payload = [];
  will_qos = 0;
  will_retain = false;
  keep_alive_seconds = 60;
}

abbrev client : MqttClient
client = record {
  config = config;
  posted = [];
  connecting = false;
  connected = true;
  stopped = false;
  next_packet_id = 1;
  pending_publishes = [];
  reading = no_read;
  keep_alive_waits = true;
  reconnect_waits = false;
  has_on_connect = true;
  has_on_disconnect = true;
  has_on_message = true;
  events = [];
}

decode_remaining_length-encode_example :
    decode_remaining_length (encode_remaining_length 3000000 ++ (1 ∷ [])) ≡ (0, 0)
decode_remaining_length-encode_example =
    decode_remaining_length-encode 3000000 (1 ∷ []) (omega arith)

acquire_packet_id_fresh_example :
    (1 ≤ nth_id 0 65535) × (nth_id 0 65535 ≤ 65535) × (nth_id 0 65535 ≢ nth_id 1 65535)
acquire_packet_id_fresh_example =
    acquire_packet_id_fresh 0 1 65535 (omega arith) (omega arith) (omega arith)

-- A password without a user name: the flag is set, and the password is not in the packet.
password_flag :
    build_connect_packet config
    ≡ 16 ∷ 15 ∷ 0 ∷ 4 ∷ (codes "MQTT" ++ (4 ∷ 66 ∷ 0 ∷ 60 ∷ 0 ∷ 3 ∷ codes "cam"))
unfolding build_connect_packet connect_flags packet_of encode_length write_utf8
password_flag = refl
