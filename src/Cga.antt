-- ===== src/Cga.antt =====
-- src/arch/x86_64/print.c, the text screen of the PC.
pub mod Screen
