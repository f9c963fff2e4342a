-- ===== src/Tests.antt =====
-- Small inputs of each part: what the code computes on them, and the theorems applied to them.
pub mod Topology
pub mod Parser
pub mod Engine
pub mod Repository
pub mod App
pub mod Wire
pub mod System
pub mod Files
pub mod Rest
