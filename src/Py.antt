-- ===== src/Py.antt =====
-- What the source uses of Python: texts, dictionaries, the values of JSON and YAML documents, and
-- functions that may raise.
pub mod Chars
pub mod Dict
pub mod Value
pub mod Result
pub mod Float
pub mod Memory
