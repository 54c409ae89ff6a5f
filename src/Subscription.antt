-- ===== src/Subscription.antt =====
-- src/transceiver/subscription.rs: who receives the messages of a topic. `Receivers` has the leaf
-- `Subscription`, `Topic` the splitting of topics, `Tree` the tree of subscriptions.
pub mod Receivers
pub mod Topic
pub mod Tree
