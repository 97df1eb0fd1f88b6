-- ===== src/UnitTests.antt =====
-- The unit tests of tests/ that read no files and run no processes, on the model.
pub mod Config
pub mod Util
pub mod Tokenizer
