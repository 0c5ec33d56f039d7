-- ===== src/Asr.antt =====
-- Speech recognition: the session contract (daemon/asr/runtime) and what stands on it.
pub mod Contract
pub mod AsyncSession
pub mod Vad
pub mod Reload
