-- ===== src/Tests.antt =====
-- The theorems at concrete inputs: a bridge with two send topics and one receive topic.
mod Data
mod Faults
mod Rates
mod Flow
mod Pipeline
mod Texts
mod Startup
mod Schedules
mod Life
