-- ===== src/Util.antt =====
-- src/util.cpp and src/util.hpp: the helper functions of namespace `Util`.
pub mod Lowercase
pub mod Match
pub mod Command
pub mod Dirs
pub mod Clock
