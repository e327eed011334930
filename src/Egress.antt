-- ===== src/Egress.antt =====
-- The egress gate (src/egress): the policy and its rules, the address classes, the judge, the proxy.
pub mod Types
pub mod Rules
pub mod Ssrf
pub mod Judge
pub mod Slots
pub mod Veth
pub mod Tap
pub mod Proxy
pub mod Start
