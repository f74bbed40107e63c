-- ===== src/Platform.antt =====
-- What the program takes from outside its own sources, as interfaces: 32-bit floats and instants.
pub mod Float
pub mod Clock
