-- ===== src/Tests.antt =====
-- Runs of the model at fixed inputs, and each theorem of the library at one input where its conditions hold.
mod Cache
mod Freshness
mod RateLimit
mod Lb
mod Pool
mod Glob
mod Origin
mod Range
mod Coalesce
mod Disk
mod Ring
mod Query
