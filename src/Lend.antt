-- ===== src/Lend.antt =====
-- contracts/lend: the lending market, its interest model and its overseer.
pub mod Rates
pub mod Market
