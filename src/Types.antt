-- ===== src/Types.antt =====
-- The data that the client exchanges with the server and with the wallet
-- (src/web/src/types/league.ts and src/web/src/types/wallet.d.ts).
pub mod League
pub mod Wallet
