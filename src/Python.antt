-- ===== src/Python.antt =====
-- What the sources use of Python itself: text, floats and decoded JSON documents.
-- A text is its list of code points, a `bytes` value its list of bytes.
pub mod Text
pub mod Float
pub mod Json
