-- ===== src/Js.antt =====
-- The built-ins of JavaScript and Node that the program uses: numbers, strings and buffers.
pub mod Number
pub mod ToNumber
pub mod Strings
pub mod Buffer
pub mod Utf8
pub mod Hex
