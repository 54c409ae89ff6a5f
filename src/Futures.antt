-- ===== src/Futures.antt =====
-- src/futures.rs: the futures that wait for the events of the transceiver's task.
pub mod Publish
pub mod Subscribe

-- `std::task::Poll`
pub data Poll {ℓ} (A : Type ℓ) : Type ℓ where
  not_ready : Poll A
  ready : A → Poll A
