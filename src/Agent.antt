-- ===== src/Agent.antt =====
-- crates/wx-agent: the decisions of the agent that do no input or output.
pub mod Clipboard
pub mod AutoLayout
pub mod State
pub mod Engine
