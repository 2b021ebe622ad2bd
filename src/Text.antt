-- ===== src/Text.antt =====
-- What the program uses of Rust's `str`: a text is its bytes. Prefixes and suffixes, `parse` on
-- unsigned integers, `{}` of one, and the splitting of lines into words.
pub mod Affix
pub mod Digits
pub mod Decimal
pub mod Hex
pub mod Words
pub mod Splitting
