-- ===== src/Con/Serial/Mb.antt =====
-- src/arch/mb_le/console.c and src/arch/mb_le/tty.c, over the UART of the MicroBlaze.
use rpv_platforms_evt_driven.Base.{ℕ, ◌==◌, if◌then◌else◌, List, [], ◌∷◌}
use rpv_platforms_evt_driven.Uart.Xuart.Port.{UartEffect, xuartlite_start, xuartlite_write}
use rpv_platforms_evt_driven.Con.{Console}

-- `tty_write`: none of the three characters that stand for DEL is DEL again.
unfoldable pub tty_write : (c : ℕ) → List UartEffect → List UartEffect
tty_write c t =
    if c == 0x7f
    then xuartlite_write 0x08 (xuartlite_write b' ' (xuartlite_write 0x08 t))
    else xuartlite_write c t

-- `tty_string`, over the characters before the NUL.
unfoldable pub tty_string : List ℕ → List UartEffect → List UartEffect
tty_string [] t = t
tty_string (c ∷ cs) t = tty_string cs (tty_write c t)

-- `con_ln`, `con_tab`, `con_char`, `con_string`, `con_xy`, `con_clear`, `con_getx`, `con_gety`
abbrev pub mb : Console
mb = record {
  State = List UartEffect;
  con_ln = tty_write 0x0a;
  con_tab = tty_write 0x09;
  con_char = tty_write;
  con_string = tty_string;
  con_xy = λ cx cy t. t;
  con_clear = λ t. t;
  con_getx = λ t. 0;
  con_gety = λ t. 0;
}

-- `set_con`
unfoldable pub mb_set_con : List UartEffect → List UartEffect
mb_set_con t = xuartlite_start t
