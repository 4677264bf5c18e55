-- ===== src/Tests.antt =====
-- Runs on concrete inputs, and the theorems of the library applied to them.
mod Circuits
mod Providers
mod Routes
mod Streams
mod Filters
mod Histories
mod Usages
mod Rollups
mod Networks
mod Budgets
