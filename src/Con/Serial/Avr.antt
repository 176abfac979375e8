-- ===== src/Con/Serial/Avr.antt =====
-- src/arch/mc_avr/sys/tty.c, over the UART of the AVR.
use rpv_platforms_evt_driven.Base.{ℕ, ◌==◌, if◌then◌else◌, List, [], ◌∷◌}
use rpv_platforms_evt_driven.Uart.Avr.Port.{SendEffect, uart_write}
use rpv_platforms_evt_driven.Con.{Console}

-- `con_char`: none of the three characters that stand for DEL is DEL again.
unfoldable pub avr_char : (code : ℕ) → List SendEffect → List SendEffect
avr_char code t =
    if code == 0x7f
    then uart_write 0x08 (uart_write b' ' (uart_write 0x08 t))
    else uart_write code t

-- `con_string`, over the characters before the NUL.
unfoldable pub avr_string : List ℕ → List SendEffect → List SendEffect
avr_string [] t = t
avr_string (c ∷ cs) t = avr_string cs (avr_char c t)

-- `con_ln`, `con_tab`, `con_char`, `con_string`, `con_xy`, `con_clear`, `con_getx`, `con_gety`
abbrev pub avr : Console
avr = record {
  State = List SendEffect;
  con_ln = avr_char 0x0a;
  con_tab = avr_char 0x09;
  con_char = avr_char;
  con_string = avr_string;
  con_xy = λ cx cy t. t;
  con_clear = λ t. t;
  con_getx = λ t. 0;
  con_gety = λ t. 0;
}
