-- ===== src/Tokenizer.antt =====
-- src/tokenizer.c, and the loop of `main_assemble` that collects the tokens of a file.
pub mod Defs
pub mod Next
pub mod Progress
pub mod Words
pub mod Stream
pub mod Pieces
pub mod Lists
pub mod Show
