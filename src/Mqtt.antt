-- ===== src/Mqtt.antt =====
-- The MQTT client: src/mqtt/mqtt_client.cpp.
pub mod Packet
pub mod Client
mod Runs
