-- ===== src/Examples.antt =====
-- Tests: small runs of the modelled code, and each theorem applied at concrete inputs.
mod Questions
mod Accounts
mod Money
mod Settling
mod Signing
mod Records
mod Workers
mod Asking
