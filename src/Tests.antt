-- ===== src/Tests.antt =====
-- Runs of the model on concrete inputs.
mod Data
mod Runs
mod Examples
mod Plain
mod Checks
mod Traces
mod Serving
mod Systems
