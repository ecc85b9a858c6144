-- ===== src/Tests.antt =====
-- Runs of the model at concrete inputs, and examples that apply the theorems of the other modules.
mod Fixtures
mod Queue
mod Caching
mod Messages
mod Requests
mod Pages
mod Watching
mod Widgets
mod Views
mod Lookups
