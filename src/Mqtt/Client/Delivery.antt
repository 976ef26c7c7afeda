-- ===== src/Mqtt/Client/Delivery.antt =====
-- PUBLISH packets that come in, `MqttClient::HandlePacket` of src/mqtt/mqtt_client.cpp.
use ai_camera.Base.{ℕ, ◌/◌, ◌%◌, Bool, List, if◌then◌else◌, zero, suc, [], ◌∷◌, ◌++◌}
use ai_camera.Mqtt.Client.{MqttClient, MqttEvent, wrote, message_came, tells}

-- The two bytes of an identifier behind a first byte and the length 2.
abbrev answer_text : ℕ → ℕ → List ℕ
answer_text first id = first ∷ (2 ∷ (id / 256 ∷ (id % 256 ∷ [])))

-- A PUBACK (first byte 64) for level 1, a PUBREC (80) for level 2, and nothing for level 0.
abbrev pub answers : ℕ → ℕ → List MqttEvent
answers (suc zero) id = wrote (answer_text 64 id) ∷ []
answers (suc (suc zero)) id = wrote (answer_text 80 id) ∷ []
answers _ id = []

abbrev pub handed_over : MqttClient → List ℕ → List ℕ → ℕ → Bool → ℕ → MqttClient
handed_over c topic payload qos retain id =
    let called : List MqttEvent =
      if c.has_on_message then message_came topic payload qos retain ∷ [] else [] in
    record c { events = c.events ++ (answers qos id ++ called) }

-- The client that the handler leaves.
abbrev told : MqttClient → MqttEvent → MqttClient
told d message = if d.has_on_message then tells d message else d
