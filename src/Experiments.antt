-- ===== src/Experiments.antt =====
-- The small MQTT client of experiments/mqtt_client.py, beside the one of the library.
pub mod Codec
pub mod Session
pub mod Reading
pub mod Heard
pub mod Same
