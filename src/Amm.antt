-- ===== src/Amm.antt =====
-- The automated market maker: libraries/amm-shared and contracts/amm.
pub mod Tokens
pub mod Exchange
