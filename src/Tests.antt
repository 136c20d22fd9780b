-- ===== src/Tests.antt =====
-- Runs at concrete inputs.
mod Data
mod Passes
mod Rules
mod Registering
mod Serving
mod Running
mod Starting
