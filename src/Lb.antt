-- ===== src/Lb.antt =====
-- Load balancing over a pool of backends: internal/lb.
pub mod Health
pub mod Ring
pub mod Pool
