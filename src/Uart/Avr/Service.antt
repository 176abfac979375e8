-- ===== src/Uart/Avr/Service.antt =====
-- The AVR's service publishes the valid characters among those that the MicroBlaze's would.
use rpv_platforms_evt_driven.Base.{
  ℕ, zero, suc, ◌≡◌, refl, ap, arith, List, [], ◌∷◌, if◌then◌else◌, Option, none, some,
}
use rpv_platforms_evt_driven.Uart.Ring.{Ring, read_char, ring_size}
use rpv_platforms_evt_driven.Uart.Ring.Refine.{
  IsValid, contents, push, put_char-push, put_char-IsValid,
}
use rpv_platforms_evt_driven.Uart.Xuart.Service.{split_nul, Served, service-Served}
use rpv_platforms_evt_driven.Uart.Xuart
use rpv_platforms_evt_driven.Uart.Avr.{
  ErrorBits, bit_set, on_rx_complete, is_char_valid, service_loop, service,
}

unfoldable pub valid_keys : List ℕ → List ℕ
valid_keys [] = []
valid_keys (c ∷ q) = if is_char_valid c then c ∷ valid_keys q else valid_keys q

unfoldable pub filter_keys : Option (List ℕ × Ring) → Option (List ℕ × Ring)
filter_keys none = none
filter_keys (some (keys, r)) = some (valid_keys keys, r)

service_loop-filter_keys :
    (f : ℕ) (r : Ring) → service_loop f r ≡ filter_keys (Xuart.service_loop f r)
unfolding service_loop filter_keys valid_keys Xuart.service_loop
service_loop-filter_keys zero r = refl
service_loop-filter_keys (suc f) r = ground (arith, service_loop-filter_keys f (read_char r).1)

-- From a valid ring the service ends. Of the bytes that wait before the first NUL it publishes, in
-- order, those that `is_charValid` accepts, and it leaves those behind the NUL.
pub service_lem :
    {r : Ring}
    → IsValid r
    → (r' : Ring) × (service r ≡ some (valid_keys (split_nul (contents r)).0, r'))
      × (contents r' ≡ (split_nul (contents r)).1)
      × IsValid r'
unfolding service Xuart.service filter_keys
service_lem {r} v =
    let s : Served (contents r) (Xuart.service r) = service-Served v in
    (
      s.ring,
      ground (arith, service_loop-filter_keys ring_size r, s.ends, s.split),
      ap (λ p. p.1) s.split,
      s.valid,
    )

-- A receive interrupt queues its byte, or drops it if the line reports an error.
pub on_rx_complete-push :
    {r : Ring} (e : ErrorBits) (status c : ℕ)
    → IsValid r
    → IsValid (on_rx_complete e r status c)
      × (contents (on_rx_complete e r status c) ≡ (
          if bit_set status e.fe0
          then contents r
          else if bit_set status e.dor0
          then contents r
          else push (contents r) c))
unfolding on_rx_complete
on_rx_complete-push {r} e status c v = ground (arith, put_char-push c v, put_char-IsValid c v)
