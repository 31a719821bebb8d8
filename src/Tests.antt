-- ===== src/Tests.antt =====
-- Runs of the model on small inputs, and each theorem at an input that meets its hypotheses.
mod Vesting
mod Contract
mod Exchange
mod Rewards
mod Lend
