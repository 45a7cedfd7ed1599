-- ===== src/Python.antt =====
-- What the program uses of Python and ctypes: exceptions, floats, machine words, dynamic values.
pub mod Result
pub mod Float
pub mod Words
pub mod Value
pub mod Exec
