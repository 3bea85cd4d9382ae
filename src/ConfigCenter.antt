-- ===== src/ConfigCenter.antt =====
-- config_center: keys, revisions and file names of the configuration source.
pub mod Key
pub mod Revision
pub mod Base64
pub mod Mapping
pub mod Examples
