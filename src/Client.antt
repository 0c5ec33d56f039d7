-- ===== src/Client.antt =====
-- The child processes that send commands (src/common/client).
pub mod Framer
