-- ===== src/Video.antt =====
-- crates/wx-video: frames, packets, codec negotiation, and the pipeline between two threads.
pub mod Frame
pub mod Packet
pub mod Negotiation
pub mod Pipeline
