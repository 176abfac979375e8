-- ===== src/Con/Serial.antt =====
-- src/arch/mb_le/console.c with src/arch/mb_le/tty.c, and src/arch/mc_avr/sys/tty.c: the consoles on
-- a serial line.
pub mod Mb
pub mod Avr
