-- ===== src/Tests.antt =====
-- Runs of the definitions on small inputs, and the theorems at concrete ones.
mod Samples
mod Budgets
mod Decisions
mod Selections
mod Bidding
mod Exchanges
mod Targets
mod Slot
mod Loaded
mod Ico
mod Caches
mod Audits
mod Messages
mod Lines
mod Auctions
mod Children
mod Wins
mod Dsl
mod Responses
mod Managers
