-- ===== src/Examples.antt =====
-- Runs of the model at concrete inputs, and the theorems at inputs that meet their hypotheses.
mod Data
mod Metrics
mod Calls
mod Daemon
mod Database
mod Dashboard
mod Scanners
mod Pages
mod Results
mod Alerting
mod Scheduler
mod Detection
mod Pipeline
mod Shown
mod Config
mod Storage
mod Plugins
mod Signatures
