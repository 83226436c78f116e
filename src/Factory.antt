-- ===== src/Factory.antt =====
-- factories/: the factory file, and the parts of the factory check that the runs rest on.
pub mod File
pub mod Check
