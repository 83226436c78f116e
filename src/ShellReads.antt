-- ===== src/ShellReads.antt =====
-- core/shell_reads.py: whether a bash command only reads inside the workspace.
pub mod Lexer
pub mod Words
pub mod Guards
pub mod Confined
pub mod Harmless
pub mod Quoted
pub mod Recut
