-- ===== src/Tests.antt =====
-- The tests, and the main theorems at inputs at which their hypotheses hold.
mod Sample
mod Pairs
mod Tables
mod Workers
mod Keeping
mod Settings
mod Upstream
mod Posts
mod Requests
mod Routes
mod Together
mod Promises
mod Repeats
mod Startup
