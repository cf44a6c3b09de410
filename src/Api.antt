-- ===== src/Api.antt =====
-- internal/api: the parts of the HTTP service that keep state.
pub mod Hub
pub mod Wildcard
pub mod Cors
pub mod RateLimit
pub mod StatsWindow
