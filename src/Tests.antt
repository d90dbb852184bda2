-- ===== src/Tests.antt =====
-- The theorems at concrete inputs.
mod Convert
mod Data
mod Ends
mod Exchange
mod Gathered
mod Journey
mod Log
mod Main
mod Network
mod Parse
mod Plugin
mod Target
mod Ureq
mod Ures
mod Runs
mod Served
