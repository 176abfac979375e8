-- ===== src/Net/Service/Fill.antt =====
-- A frame that the engine writes behind the frames that wait.
use rpv_platforms_evt_driven.Base.{
  ℕ, zero, suc, ◌+◌, ◌*◌, ◌%◌, ◌≤◌, ◌<◌, ◌≡◌, ◌≢◌, inl, inr, refl, sym, ap, ap₂, subst, ◌∙◌, arith,
  true, List, [], ◌∷◌, ◌++◌, length, dec_lt,
}
use rpv_platforms_evt_driven.Base.Index.{next_index}
use rpv_platforms_evt_driven.Dma.Bd.{Bd, bd_size, write_bd}
use rpv_platforms_evt_driven.Dma.Bd.Layout.{write_bd_self, write_bd_ne}
use rpv_platforms_evt_driven.Dma.State.{Dma, max_bds, s2mm_ring, s2mm_buffer, copy_in, copy_out}
use rpv_platforms_evt_driven.Dma.State.Bytes.{copy_in_outside, copy_out-eq, copy_out-copy_in}
use rpv_platforms_evt_driven.Dma.Rx.Queue.{IsRx, waiting}
use rpv_platforms_evt_driven.Net.Mac.{xtemac_mtu}
use rpv_platforms_evt_driven.Net.Service.Drain.{
  rx_bd, rx_bd-next, next_in, rx_packets, IsReceived, AllReceived,
}
use rpv_platforms_evt_driven.Net.Service.Frames.{head_bd, fill_bd}

-- The bytes of the packet of a descriptor.
abbrev packet_at : Dma → ℕ → List ℕ
packet_at d a = copy_out d.bytes (d.bds a).buffer (d.bds a).trans_len

-- The receive queue holds these frames, in a ring whose buffers lie one behind the other.
pub record Holds (q : List (List ℕ)) (d : Dma) : Type 0 where
  pub rx : IsRx d
  pub as_many : length q ≡ waiting d
  pub buffers :
      (k : ℕ)
      → k < max_bds
      → (d.bds (s2mm_ring + k * bd_size)).buffer ≡ s2mm_buffer + k * xtemac_mtu
  pub received : AllReceived d d.rxtail (length q)
  pub packets : rx_packets d d.rxtail (length q) ≡ q

rx_packets-append :
    (d e : Dma) (tail n : ℕ) (frame : List ℕ)
    → tail < max_bds
    → ((k : ℕ) → k < n → packet_at e (rx_bd tail k) ≡ packet_at d (rx_bd tail k))
    → packet_at e (rx_bd tail n) ≡ frame
    → rx_packets e tail (suc n) ≡ rx_packets d tail n ++ (frame ∷ [])
rx_packets-append d e tail zero frame h same last = ap (λ p. p ∷ []) last
rx_packets-append d e tail (suc n) frame h same last = ap₂ ◌∷◌ (same 0 (omega arith)) (
    rx_packets-append d e (next_index max_bds tail) n frame (next_in tail h)
      (λ k l.
        let a = rx_bd-next tail k h in
        ap (packet_at e) a ∙ same (suc k) (omega arith) ∙ ap (packet_at d) (sym a))
      (ap (packet_at e) (rx_bd-next tail n h) ∙ last))

pub rx_packets-eq :
    (d e : Dma) (tail n : ℕ)
    → e.bds ≡ d.bds
    → e.bytes ≡ d.bytes
    → rx_packets e tail n ≡ rx_packets d tail n
rx_packets-eq d e tail zero p q = refl
rx_packets-eq d e tail (suc n) p q =
    ap₂ ◌∷◌ (λ i. copy_out (q i) (p i (rx_bd tail 0)).buffer (p i (rx_bd tail 0)).trans_len)
      (rx_packets-eq d e (next_index max_bds tail) n p q)

module _ (frame : List ℕ) (d : Dma) (q : List (List ℕ)) (small : length frame ≤ xtemac_mtu)
    (h : Holds q d) where
  at_head : rx_bd d.rxtail (length q) ≡ head_bd d
  at_head = let rx = h.rx in omega (arith, rx.head_in, rx.tail_in, h.as_many)

  other_bd :
      (k : ℕ)
      → k < max_bds
      → k ≢ d.rxhead
      → (fill_bd frame d).bds (s2mm_ring + k * bd_size) ≡ d.bds (s2mm_ring + k * bd_size)
  unfolding fill_bd
  other_bd k l ne =
      write_bd_ne d.bds (head_bd d) (s2mm_ring + k * bd_size) _ (λ e. ne (omega arith))

  behind : (k : ℕ) → k < length q → ((d.rxtail + k) % max_bds) ≢ d.rxhead
  behind k l e = let rx = h.rx in omega (arith, rx.head_in, rx.tail_in, h.as_many, l, e)

  head_buffer : (d.bds (head_bd d)).buffer ≡ s2mm_buffer + d.rxhead * xtemac_mtu
  head_buffer = let rx = h.rx in h.buffers d.rxhead rx.head_in

  old_packet :
      (k : ℕ)
      → k < length q
      → packet_at (fill_bd frame d) (rx_bd d.rxtail k) ≡ packet_at d (rx_bd d.rxtail k)
  unfolding fill_bd
  old_packet k l =
      let j = (d.rxtail + k) % max_bds in
      let b = d.bds (rx_bd d.rxtail k) in
      let hb = (d.bds (head_bd d)).buffer in
      let bytes = copy_in d.bytes hb frame in
      let v = h.received k l in
      let apart = behind k l in
      let at_j = h.buffers j (omega arith) in
      ap (λ (b : Bd). copy_out bytes b.buffer b.trans_len) (other_bd j (omega arith) apart)
      ∙ copy_out-eq bytes d.bytes b.buffer b.trans_len (λ x lo hi.
        copy_in_outside d.bytes hb frame x (elim (dec_lt j d.rxhead) [
          | yes below ↦ inl (omega (arith, head_buffer, at_j, v.fits, below, hi))
          | no above ↦ inr (omega (arith, head_buffer, at_j, small, above, apart, lo))
        ]))

  new_packet : packet_at (fill_bd frame d) (rx_bd d.rxtail (length q)) ≡ frame
  unfolding fill_bd
  new_packet =
      let b = d.bds (head_bd d) in
      let bytes = copy_in d.bytes b.buffer frame in
      let filled : Bd = record b { cmplt = true; trans_len = length frame } in
      ap (packet_at (fill_bd frame d)) at_head
      ∙ ap (λ (b : Bd). copy_out bytes b.buffer b.trans_len)
          (write_bd_self d.bds (head_bd d) filled)
      ∙ copy_out-copy_in d.bytes b.buffer frame

  pub fill_bd-packets : rx_packets (fill_bd frame d) d.rxtail (suc (length q)) ≡ q ++ (frame ∷ [])
  fill_bd-packets =
      let rx = h.rx in
      rx_packets-append d (fill_bd frame d) d.rxtail (length q) frame rx.tail_in old_packet
        new_packet
      ∙ ap (λ q. q ++ (frame ∷ [])) h.packets

  pub fill_bd-received : AllReceived (fill_bd frame d) d.rxtail (suc (length q))
  unfolding fill_bd
  fill_bd-received k l =
      let b = d.bds (head_bd d) in
      let filled : Bd = record b { cmplt = true; trans_len = length frame } in
      elim (dec_lt k (length q)) [
        | yes old ↦
            let same = other_bd ((d.rxtail + k) % max_bds) (omega arith) (behind k old) in
            subst IsReceived (sym same) (h.received k old)
        | no new ↦
            let at_k : rx_bd d.rxtail k ≡ head_bd d =
              ap (rx_bd d.rxtail) (omega (arith, new, l)) ∙ at_head in
            let is : IsReceived filled = record {
              complete = refl;
              fits = small;
              above = omega (arith, head_buffer);
              below = let rx = h.rx in omega (arith, head_buffer, small, rx.head_in);
            } in
            subst IsReceived
              (sym (ap (fill_bd frame d).bds at_k ∙ write_bd_self d.bds (head_bd d) filled)) is
      ]

  pub fill_bd-buffers :
      (k : ℕ)
      → k < max_bds
      → ((fill_bd frame d).bds (s2mm_ring + k * bd_size)).buffer ≡ s2mm_buffer + k * xtemac_mtu
  unfolding fill_bd write_bd
  fill_bd-buffers k l = ground (arith, h.buffers k l, head_buffer)

-- The queue from `tail` on, seen from a state with the same descriptors and buffers.
pub moved-Holds :
    (q : List (List ℕ)) (d e : Dma) (tail : ℕ)
    → IsRx e
    → length q ≡ waiting e
    → e.bds ≡ d.bds
    → e.bytes ≡ d.bytes
    → e.rxtail ≡ tail
    → ((k : ℕ)
        → k < max_bds
        → (d.bds (s2mm_ring + k * bd_size)).buffer ≡ s2mm_buffer + k * xtemac_mtu)
    → AllReceived d tail (length q)
    → rx_packets d tail (length q) ≡ q
    → Holds q e
moved-Holds q d e tail rx as_many bds bytes at_tail buffers all ps = record {
  rx = rx;
  as_many = as_many;
  buffers = λ k l. ap (λ (m : ℕ → Bd). (m (s2mm_ring + k * bd_size)).buffer) bds ∙ buffers k l;
  received = λ k l.
      let a = ap (λ t. rx_bd t k) at_tail in
      subst IsReceived (sym (ap e.bds a ∙ ap (λ (m : ℕ → Bd). m (rx_bd tail k)) bds)) (all k l);
  packets =
      ap (λ t. rx_packets e t (length q)) at_tail
      ∙ rx_packets-eq d e tail (length q) bds bytes
      ∙ ps;
}

pub fill_bd-IsRx : (frame : List ℕ) (d : Dma) → IsRx d → IsRx (fill_bd frame d)
unfolding fill_bd
fill_bd-IsRx frame d rx = record { head_in = rx.head_in; tail_in = rx.tail_in }

pub fill_bd-same :
    (frame : List ℕ) (d : Dma)
    → ((fill_bd frame d).rxtail ≡ d.rxtail)
      × (waiting (fill_bd frame d) ≡ waiting d)
      × ((fill_bd frame d).rxcount ≡ d.rxcount)
      × ((fill_bd frame d).lostcount ≡ d.lostcount)
unfolding fill_bd
fill_bd-same frame d = (refl, refl, refl, refl)
