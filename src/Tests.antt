-- ===== src/Tests.antt =====
-- Tests: fixed instances of the code outside the repository, and each theorem at a concrete input.
mod Fixtures
mod Network
mod Values
mod Calls
mod Start
mod Typed
mod Served
mod Replied
