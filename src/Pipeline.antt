-- ===== src/Pipeline.antt =====
-- The request pipeline: internal/pipeline.
pub mod Glob
pub mod Query
