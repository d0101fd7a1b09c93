-- ===== src/Python.antt =====
-- What the program uses of Python itself: texts, numbers, headers.
pub mod Text
pub mod Number
pub mod Float
pub mod Headers
pub mod Class
