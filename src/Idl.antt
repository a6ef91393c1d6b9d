-- ===== src/Idl.antt =====
-- idl/: the parser of the interface language.
pub mod Parser
