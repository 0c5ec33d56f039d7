-- ===== src/Config.antt =====
-- The core configuration (src/common/config): its types in Types, CoreConfigView in View,
-- NormalizeCoreConfig in Normalize, ValidateCoreConfig in Validate.
pub mod Types
pub mod View
pub mod Normalize
pub mod Validate
