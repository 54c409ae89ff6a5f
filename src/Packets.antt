-- ===== src/Packets.antt =====
-- src/transceiver/packets.rs: the MQTT packets. `Control` has the fixed header's first byte, `Frame`
-- the rest of it and `Encode`, `Outgoing` and `Incoming` the packets that the client writes and reads,
-- `Broker` those of the other side, which the source has for its tests.
pub mod Control
pub mod Frame
pub mod Outgoing
pub mod Incoming
pub mod Broker
