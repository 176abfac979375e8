-- ===== src/Con/Wire.antt =====
-- What the consoles on a serial line send.
use rpv_platforms_evt_driven.Base.{
  ℕ, ◌%◌, ◌^◌, ◌==◌, ◌≡◌, refl, ap, ◌∙◌, if◌then◌else◌, Bool-cases, inl, inr, List, [], ◌∷◌,
}
use rpv_platforms_evt_driven.Uart.Xuart.Port.{
  UartEffect, write_tx_datafifo, write_ctrl, disable_irq, enable_irq0, await_txfifo_empty,
  xuartlite_write,
}
use rpv_platforms_evt_driven.Uart.Avr.Port.{SendEffect, write_udr0, await_udre0, uart_write}
use rpv_platforms_evt_driven.Con.{
  ConCall, a_ln, a_tab, a_clear, a_char, a_string, an_xy, con_call, con_calls,
}
use rpv_platforms_evt_driven.Con.Serial.Mb.{mb, tty_write, tty_string}
use rpv_platforms_evt_driven.Con.Serial.Avr.{avr, avr_char, avr_string}

-- The bytes of a trace, newest first.
abbrev pub mb_sent : List UartEffect → List ℕ
mb_sent [] = []
mb_sent (write_tx_datafifo c ∷ t) = c ∷ mb_sent t
mb_sent (write_ctrl w ∷ t) = mb_sent t
mb_sent (disable_irq ∷ t) = mb_sent t
mb_sent (enable_irq0 ∷ t) = mb_sent t
mb_sent (await_txfifo_empty ∷ t) = mb_sent t

abbrev pub avr_sent : List SendEffect → List ℕ
avr_sent [] = []
avr_sent (write_udr0 c ∷ t) = c ∷ avr_sent t
avr_sent (await_udre0 ∷ t) = avr_sent t

-- What a terminal is to be sent for a text: itself, with a backspace, a blank and a backspace for DEL.
-- Newest first, in front of what was sent before.
abbrev pub wire : List ℕ → List ℕ → List ℕ
wire [] sent = sent
wire (c ∷ cs) sent = wire cs (if c == 0x7f then 0x08 ∷ b' ' ∷ 0x08 ∷ sent else c % 2 ^ 8 ∷ sent)

-- The text of a call.
abbrev pub text_of : ConCall → List ℕ
text_of a_ln = 0x0a ∷ []
text_of a_tab = 0x09 ∷ []
text_of a_clear = []
text_of (a_char code) = code ∷ []
text_of (a_string str) = str
text_of (an_xy cx cy) = []

abbrev pub wire_calls : List ConCall → List ℕ → List ℕ
wire_calls [] sent = sent
wire_calls (call ∷ calls) sent = wire_calls calls (wire (text_of call) sent)

tty_string-wire :
    (cs : List ℕ) (t : List UartEffect) → mb_sent (tty_string cs t) ≡ wire cs (mb_sent t)
unfolding tty_string tty_write xuartlite_write
tty_string-wire [] t = refl
tty_string-wire (c ∷ cs) t = elim (Bool-cases (c == 0x7f)) [
  | inl e ↦ rw (tty_string-wire cs (tty_write c t), e) refl
  | inr e ↦ rw (tty_string-wire cs (tty_write c t), e) refl
]

avr_string-wire :
    (cs : List ℕ) (t : List SendEffect) → avr_sent (avr_string cs t) ≡ wire cs (avr_sent t)
unfolding avr_string avr_char uart_write
avr_string-wire [] t = refl
avr_string-wire (c ∷ cs) t = elim (Bool-cases (c == 0x7f)) [
  | inl e ↦ rw (avr_string-wire cs (avr_char c t), e) refl
  | inr e ↦ rw (avr_string-wire cs (avr_char c t), e) refl
]

mb_call-wire :
    (call : ConCall) (t : List UartEffect)
    → mb_sent (con_call mb call t) ≡ wire (text_of call) (mb_sent t)
unfolding con_call tty_string
mb_call-wire a_ln t = tty_string-wire (0x0a ∷ []) t
mb_call-wire a_tab t = tty_string-wire (0x09 ∷ []) t
mb_call-wire a_clear t = refl
mb_call-wire (a_char code) t = tty_string-wire (code ∷ []) t
mb_call-wire (a_string str) t = tty_string-wire str t
mb_call-wire (an_xy cx cy) t = refl

avr_call-wire :
    (call : ConCall) (t : List SendEffect)
    → avr_sent (con_call avr call t) ≡ wire (text_of call) (avr_sent t)
unfolding con_call avr_string
avr_call-wire a_ln t = avr_string-wire (0x0a ∷ []) t
avr_call-wire a_tab t = avr_string-wire (0x09 ∷ []) t
avr_call-wire a_clear t = refl
avr_call-wire (a_char code) t = avr_string-wire (code ∷ []) t
avr_call-wire (a_string str) t = avr_string-wire str t
avr_call-wire (an_xy cx cy) t = refl

-- For any sequence of calls the consoles of the MicroBlaze and of the AVR send the same: the text of
-- the calls in order, each character as a byte, with a backspace, a blank and a backspace for DEL.
pub con_calls-wire :
    (calls : List ConCall) (t : List UartEffect) (u : List SendEffect)
    → (mb_sent (con_calls mb calls t) ≡ wire_calls calls (mb_sent t))
      × (avr_sent (con_calls avr calls u) ≡ wire_calls calls (avr_sent u))
unfolding con_calls
con_calls-wire [] t u = (refl, refl)
con_calls-wire (call ∷ calls) t u =
    let (mb_same, avr_same) = con_calls-wire calls (con_call mb call t) (con_call avr call u) in
    (
      mb_same ∙ ap (wire_calls calls) (mb_call-wire call t),
      avr_same ∙ ap (wire_calls calls) (avr_call-wire call u),
    )
