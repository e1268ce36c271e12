-- ===== src/Server.antt =====
-- The daemon's HTTP side, as far as the web client meets it: internal/api/server.go and
-- internal/webui/server.go.
pub mod Gauge
pub mod Gauges
pub mod Metrics
pub mod Http
pub mod Mux
pub mod Trigger
pub mod Ui
pub mod Auth
pub mod Handlers
