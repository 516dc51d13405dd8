-- ===== src/Service.antt =====
-- The league service of src/internal/league: its encodings, and the operations behind its routes.
pub mod Encoding
pub mod Mirror
pub mod Payments
