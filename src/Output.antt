-- ===== src/Output.antt =====
-- watchtower/output: syslog and the login banner.
pub mod Syslog
pub mod Banner
