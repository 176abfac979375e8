-- ===== src/Uart.antt =====
-- The receive side of the two UART drivers and of the services that empty them: an interrupt
-- fills an 8-byte ring, and a service publishes its bytes as key events.
pub mod Ring
pub mod Xuart
pub mod Avr
