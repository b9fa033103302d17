-- ===== src/Tests.antt =====
-- Runs of the modelled code at concrete inputs.
mod Lists
mod Buffers
mod Slots
mod Connections
mod Invocations
mod Runs
mod Signals
mod Calls
mod Objects
mod Foreigns
mod Schedules
