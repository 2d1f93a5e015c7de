-- ===== src/Go.antt =====
-- What the program uses of Go's standard library.
pub mod Text
pub mod Net
pub mod Maps
pub mod Path
pub mod Glob
pub mod Walk
