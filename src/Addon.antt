-- ===== src/Addon.antt =====
-- The fcitx5 addon (src/addon).
pub mod Panel
pub mod PollGate
pub mod Engine
