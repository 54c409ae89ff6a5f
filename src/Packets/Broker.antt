-- ===== src/Packets/Broker.antt =====
-- The packets of the other side of the connection, which src/transceiver/packets.rs has for the test
-- broker: decoders of CONNECT, SUBSCRIBE and UNSUBSCRIBE, encoders of CONNACK and SUBACK.
pub mod Connect
pub mod Topics
pub mod Answers
