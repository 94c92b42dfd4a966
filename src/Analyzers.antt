-- ===== src/Analyzers.antt =====
-- watchtower/analyzers: comparison with baselines, topology differences, correlation with peers.
pub mod Compare
pub mod Diff
pub mod Correlate
