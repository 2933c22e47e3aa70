-- ===== src/Util.antt =====
-- Util/parse.py: the text form of byte strings in assembly files.
pub mod Escape
pub mod EscapeRoundTrip
pub mod EscapeEnds
mod Examples
