-- ===== src/Witnesses.antt =====
-- Concrete runs of the program's parts, at which the theorems are applied.
mod Crypto
mod Signing
mod Log
mod Network
mod Fixtures
mod Server
mod Terminal
mod Services
mod Setups
mod Updates
mod Commands
mod Dashboards
