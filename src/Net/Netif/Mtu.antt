-- ===== src/Net/Netif/Mtu.antt =====
-- The interface after its set-up, and a packet of its greatest size.
use rpv_platforms_evt_driven.Base.{ℕ, ◌+◌, ◌≡◌, refl, ap, ◌∙◌, inr, arith, List, [], ◌∷◌, length}
use rpv_platforms_evt_driven.Dma.State.{Dma}
use rpv_platforms_evt_driven.Dma.Tx.{ethdma_txsgenque}
use rpv_platforms_evt_driven.Dma.Tx.Slots.{IsTx, enque_refused, packets, queued}
use rpv_platforms_evt_driven.Net.Mac.{Mac, xtemac_mtu}
use rpv_platforms_evt_driven.Net.Service.{err_if, eth_output}
use rpv_platforms_evt_driven.Net.Service.Output.{packets-same}
use rpv_platforms_evt_driven.Net.Netif.{Netif, NetifCalls, ethif_init}

-- The bytes of an Ethernet header.
abbrev pub eth_header : ℕ
eth_header = 14

module _ {Stack : Type 0} (nc : NetifCalls Stack) where
  -- On a well-formed send ring with slots of XTEMAC_MTU bytes, a frame with an Ethernet header and an
  -- IP packet of the size that the interface announces to lwIP, in one buffer, is refused with ERR_IF,
  -- also when the ring is empty; the queued packets stay.
  pub full_mtu-refused :
      (mac : Mac) (netif : Netif) (frame : List ℕ) {s : Dma} {n : ℕ}
      → IsTx s n xtemac_mtu
      → length frame ≡ eth_header + (ethif_init nc mac netif).1.mtu
      → let (err, t) = eth_output (frame ∷ []) s in (err ≡ err_if) × (queued t ≡ queued s)
  unfolding eth_output ethif_init
  full_mtu-refused mac netif frame {s} v full =
      let (out, tail, bytes, bds, depth) =
        enque_refused v frame (inr (inr (omega (arith, full)))) (omega (arith, full)) in
      let t = (ethdma_txsgenque frame s).1 in
      rw (out, eth_output)
        (refl, ap (λ k. packets t 0 k) tail ∙ packets-same s t 0 s.txtail bytes bds)
