-- ===== src/Net/Service/Receive.antt =====
-- Frames on their way from the engine over the queue of src/arch/mb_le/sys/xdma.c to lwIP.
use rpv_platforms_evt_driven.Base.{
  ℕ, ◌+◌, ◌*◌, ◌%◌, ◌^◌, ◌-◌, ◌≤◌, ◌≡◌, refl, sym, ap, subst, ◌∙◌, arith, ◌==◌, if◌then◌else◌, true,
  false, List, [], ◌∷◌, ◌++◌, drop, length, dec_lt,
}
use rpv_platforms_evt_driven.Base.Index.{next_index}
use rpv_platforms_evt_driven.Dma.Bd.{Bd, bd_size}
use rpv_platforms_evt_driven.Dma.Registers.{status_of}
use rpv_platforms_evt_driven.Dma.Engine.{sgdma_ackirq}
use rpv_platforms_evt_driven.Dma.State.{Dma, max_bds, s2mm_ring}
use rpv_platforms_evt_driven.Dma.Rx.{ethdma_queue, on_ethdma_rxirq}
use rpv_platforms_evt_driven.Dma.Rx.Queue.{IsRx, waiting, Arrived, on_ethdma_rxirq-Arrived}
use rpv_platforms_evt_driven.Net.Mac.{xtemac_mtu}
use rpv_platforms_evt_driven.Net.Mac.Transceiver.{IsFresh}
use rpv_platforms_evt_driven.Net.Lwip.{Lwip}
use rpv_platforms_evt_driven.Net.Service.{new_input, eth_input}
use rpv_platforms_evt_driven.Net.Service.Drain.{
  rx_packets, AllReceived, AllReceived-next, KeepsRx, Delivered, eth_input-Delivered,
}
use rpv_platforms_evt_driven.Net.Service.Frames.{
  fill_bd, receive_all, push_frame, push_frames, AllFit, none_more_fit, fit, length-push,
  length-drop_push, push_frames-drop,
}
use rpv_platforms_evt_driven.Net.Service.Fill.{
  Holds, fill_bd-packets, fill_bd-received, fill_bd-buffers, moved-Holds, fill_bd-IsRx,
  fill_bd-same,
}

-- An interrupt that reports a frame leaves descriptors and buffers alone, and moves the tail of the
-- queue only where nine frames wait.
irq_moves :
    (sr : ℕ) (d : Dma)
    → (status_of sr).ioc_irq ≡ true
    → IsRx d
    → let e = on_ethdma_rxirq sr d in
      (e.bds ≡ d.bds)
      × (e.bytes ≡ d.bytes)
      × (e.rxtail ≡ (if waiting d == 9 then next_index max_bds d.rxtail else d.rxtail))
unfolding on_ethdma_rxirq ethdma_queue sgdma_ackirq next_index
irq_moves sr d ioc rx = (refl, refl, ground arith)

irq-Holds :
    (sr : ℕ) (frame : List ℕ) (d : Dma) (q : List (List ℕ))
    → (status_of sr).ioc_irq ≡ true
    → length frame ≤ xtemac_mtu
    → Holds q d
    → Holds (push_frame q frame) (on_ethdma_rxirq sr (fill_bd frame d))
unfolding push_frame
irq-Holds sr frame d q ioc small h =
    let w = fill_bd frame d in
    let e = on_ethdma_rxirq sr w in
    let rx = fill_bd-IsRx frame d h.rx in
    let (bds, bytes, tail) = irq_moves sr w ioc rx in
    let arrived = on_ethdma_rxirq-Arrived sr rx ioc in
    let all = fill_bd-received frame d q small h in
    let ps = fill_bd-packets frame d q small h in
    let buffers = fill_bd-buffers frame d q small h in
    let len = length-push q frame in
    let (same_tail, same_count, same_rx, same_lost) = fill_bd-same frame d in
    elim (dec_lt (length q) 9) [
      | yes room ↦
          let below_nine : (waiting w == 9) ≡ false = ground (arith, h.as_many, same_count) in
          let kept : push_frame q frame ≡ q ++ (frame ∷ []) = ground (arith, len) in
          subst (λ p. Holds p e) (sym kept)
            (moved-Holds (q ++ (frame ∷ [])) w e d.rxtail arrived.valid
              (ground (arith, len, h.as_many, same_count, arrived.waits)) bds bytes
              (tail ∙ rw (below_nine, same_tail) refl) buffers
              (subst (λ n. AllReceived w d.rxtail n) (sym len) all)
              (ap (rx_packets w d.rxtail) len ∙ ps))
      | no full ↦
          let at_nine : (waiting w == 9) ≡ true = ground (arith, h.as_many, same_count) in
          let dropped : push_frame q frame ≡ drop 1 (q ++ (frame ∷ [])) = ground (arith, len) in
          let len' = length-drop_push q frame in
          let next = next_index max_bds d.rxtail in
          subst (λ p. Holds p e) (sym dropped)
            (moved-Holds (drop 1 (q ++ (frame ∷ []))) w e next arrived.valid
              (ground (arith, len', h.as_many, same_count, arrived.waits)) bds bytes
              (tail ∙ rw (at_nine, same_tail) refl) buffers
              (subst (λ n. AllReceived w next n) (sym len')
                (AllReceived-next w d.rxtail (length q) h.rx.tail_in all))
              (ap (rx_packets w next) len' ∙ ap (drop 1) ps))
    ]

IsFresh-Holds : {d : Dma} → IsFresh d → Holds [] d
IsFresh-Holds {d} fresh = record {
  rx = fresh.queue;
  as_many = sym fresh.none_waits;
  buffers =
      λ k l. ap (λ (b : Bd). b.buffer) (fresh.receive_ring k (s2mm_ring + k * bd_size) l refl);
  received = λ k l. absurd (omega arith);
  packets = refl;
}

receive_all-Holds :
    (sr : ℕ) (frames q : List (List ℕ)) (d : Dma)
    → (status_of sr).ioc_irq ≡ true
    → AllFit frames
    → Holds q d
    → Holds (push_frames q frames) (receive_all sr frames d)
unfolding push_frames receive_all
receive_all-Holds sr [] q d ioc none_more_fit h = h
receive_all-Holds sr (frame ∷ frames) q d ioc (fit small rest) h =
    receive_all-Holds sr frames (push_frame q frame) (on_ethdma_rxirq sr (fill_bd frame d)) ioc rest
      (irq-Holds sr frame d q ioc small h)

-- Each frame is counted as received, and as lost each one that made the queue longer than nine.
receive_all-counts :
    (sr : ℕ) (frames q : List (List ℕ)) (d : Dma)
    → (status_of sr).ioc_irq ≡ true
    → AllFit frames
    → Holds q d
    → let e = receive_all sr frames d in
      (e.rxcount % 2 ^ 32 ≡ (d.rxcount + length frames) % 2 ^ 32)
      × (e.lostcount % 2 ^ 32 ≡ (d.lostcount + (length q + length frames - 9)) % 2 ^ 32)
unfolding receive_all
receive_all-counts sr [] q d ioc none_more_fit h =
    (ground (arith, h.as_many), ground (arith, h.as_many))
receive_all-counts sr (frame ∷ frames) q d ioc (fit small rest) h =
    let w = fill_bd frame d in
    let e = on_ethdma_rxirq sr w in
    let arrived : Arrived w e = on_ethdma_rxirq-Arrived sr (fill_bd-IsRx frame d h.rx) ioc in
    let next = irq-Holds sr frame d q ioc small h in
    let (received, lost) = receive_all-counts sr frames (push_frame q frame) e ioc rest next in
    let (same_tail, same_count, same_rx, same_lost) = fill_bd-same frame d in
    (
      omega (arith, received, arrived.received, same_rx),
      ground (
        arith, lost, arrived.lost, arrived.waits, same_count, same_lost, h.as_many, next.as_many,
      ),
    )

module _ (lw : Lwip) (keeps : KeepsRx lw) where
  -- Suppose that the rings have just been set up, and that the engine then writes any number of
  -- frames of at most 1536 bytes, each into the descriptor at the head of the queue, followed by an
  -- interrupt that reports it. If the default interface and its link are up, and lwIP leaves the
  -- receive half of the driver alone, then the next `lwip_ethInput` gives lwIP the bytes of the
  -- newest nine of the frames, or of all of them if they are fewer, as far as it has buffers for
  -- them, each once and in the order in which they came, and leaves the queue empty. Every frame was
  -- counted as received, and those in front of the newest nine as lost, modulo 2 ^ 32.
  pub eth_input-receive_all :
      (sr : ℕ) (frames : List (List ℕ)) (stack : lw.Stack) (d : Dma)
      → (status_of sr).ioc_irq ≡ true
      → AllFit frames
      → lw.has_netif stack ≡ true
      → lw.netif_is_up stack ≡ true
      → lw.netif_is_link_up stack ≡ true
      → IsFresh d
      → let e = receive_all sr frames d in
        Delivered lw (drop (length frames - 9) frames) (new_input lw stack e) (eth_input lw stack e)
        × (waiting (eth_input lw stack e).dma ≡ 0)
        × (e.rxcount % 2 ^ 32 ≡ (d.rxcount + length frames) % 2 ^ 32)
        × (e.lostcount % 2 ^ 32 ≡ (d.lostcount + (length frames - 9)) % 2 ^ 32)
  eth_input-receive_all sr frames stack d ioc all netif up link fresh =
      let e = receive_all sr frames d in
      let h = receive_all-Holds sr frames [] d ioc all (IsFresh-Holds fresh) in
      let counts : 0 + length frames - 9 ≡ length frames - 9 = omega arith in
      let kept = push_frames-drop [] frames (omega arith) ∙ ap (λ n. drop n frames) counts in
      let received = subst (λ n. AllReceived e e.rxtail n) h.as_many h.received in
      let packets = ap (rx_packets e e.rxtail) (sym h.as_many) ∙ h.packets ∙ kept in
      let (received_all, lost) = receive_all-counts sr frames [] d ioc all (IsFresh-Holds fresh) in
      let (delivered, empty) = eth_input-Delivered lw keeps stack e netif up link h.rx received in
      (
        subst (λ ps. Delivered lw ps (new_input lw stack e) (eth_input lw stack e)) packets
            delivered,
        empty,
        received_all,
        lost ∙ ap (λ n. (d.lostcount + n) % 2 ^ 32) counts,
      )
