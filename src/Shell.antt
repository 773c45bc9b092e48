-- ===== src/Shell.antt =====
-- MP-1: shell/my_shell.c: the tokenizer, the table of background jobs, and the command loop.
pub mod Tokenize
pub mod Jobs
pub mod Loop
mod Tests
