-- ===== src/Python.antt =====
-- What the program uses of Python: text, numbers in text, values, and exceptions.
pub mod Text
pub mod Shell
pub mod Number
pub mod Utf8
pub mod Result
pub mod Action
pub mod Dict
pub mod Sequence
pub mod Value
pub mod Tree
