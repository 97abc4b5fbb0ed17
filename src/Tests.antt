-- ===== src/Tests.antt =====
-- Runs of the definitions at concrete inputs, and the theorems at such inputs.
mod Maps
mod Drives
mod Files
mod Formats
mod Strings
mod Screens
mod Lexer
mod Pages
mod Parser
mod Objects
mod Trees
mod Boot
mod Programs
