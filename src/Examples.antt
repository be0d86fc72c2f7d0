-- ===== src/Examples.antt =====
-- Concrete runs of the modelled code, and the theorems at concrete inputs.
mod Timeline
mod Dashboard
mod Hourly
mod Recorded
mod Usage
mod Flush
mod PolicyEditor
mod Reports
mod Clock
mod Policy
mod Store
mod Controller
mod Recovery
mod Client
mod Platform
mod Blocking
