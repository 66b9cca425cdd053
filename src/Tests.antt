-- ===== src/Tests.antt =====
-- The theorems at concrete inputs, and runs of the code on small databases.
mod Samples
mod Races
mod Courses
mod Runs
mod Services
mod Texts
mod Startup
mod Messages
mod Claims
mod Tasks
