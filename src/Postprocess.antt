-- ===== src/Postprocess.antt =====
-- The parsing of what language models answer: src/daemon/postprocess.
pub mod Candidates
