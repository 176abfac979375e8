-- ===== src/Net/Service/BusError.antt =====
-- A call of the service after a bus error of one of the two DMA engines.
use rpv_platforms_evt_driven.Base.{
  ℕ, ◌≡◌, refl, sym, ap, subst, ◌∙◌, if◌then◌else◌, Bool, true, false, ◌||◌, Option, some, List,
  ◌∷◌, ◌++◌,
}
use rpv_platforms_evt_driven.Dma.Bd.{valid_split}
use rpv_platforms_evt_driven.Dma.State.{Dma}
use rpv_platforms_evt_driven.Dma.Engine.{sgdma_sgallowed, sgdma_cyclic_trans}
use rpv_platforms_evt_driven.Dma.Rx.{ethdma_rxsgcyclic}
use rpv_platforms_evt_driven.Dma.Tx.{ethdma_txsgnormal}
use rpv_platforms_evt_driven.Net.Phy.{Phy, Phylink}
use rpv_platforms_evt_driven.Net.Phy.Link.{indicated, is_up}
use rpv_platforms_evt_driven.Net.Mac.{
  Mac, mtus_buffer, xtemac_mtu, put_bit, await_low, tx_reset, rx_reset, receiver_enable,
  transmit_enable, start_rings, recover, trx_reset, trx_disable, ethdma_trxreset, ethdma_trxstop,
}
use rpv_platforms_evt_driven.Net.Mac.Transceiver.{IsFresh, on_words, recover_lem, trx_enable_lem}
use rpv_platforms_evt_driven.Net.Lwip.{Lwip}
use rpv_platforms_evt_driven.Net.Service.{
  PhyReads, Eth, tell, block_signals, unblock_signals, dma_error, traffic, bus_event, eth_service,
}
use rpv_platforms_evt_driven.Net.Service.Events.{reads}

-- No bus error is signalled.
abbrev pub NoBusError : Dma → Type 0
NoBusError d = (d.ethdma_txbuserr ≡ false) × (d.ethdma_rxbuserr ≡ false)

txsgnormal-txbuserr :
    (sr : ℕ) (d : Dma)
    → sgdma_sgallowed sr ≡ true
    → (ethdma_txsgnormal sr mtus_buffer xtemac_mtu d).1.ethdma_txbuserr ≡ false
unfolding ethdma_txsgnormal valid_split
txsgnormal-txbuserr sr d halted = rw halted refl

rxsgcyclic-rxbuserr :
    (sr : ℕ) (d : Dma)
    → sgdma_sgallowed sr ≡ true
    → let e = (ethdma_rxsgcyclic sr mtus_buffer xtemac_mtu d).1 in
      (e.ethdma_txbuserr ≡ d.ethdma_txbuserr) × (e.ethdma_rxbuserr ≡ false)
unfolding ethdma_rxsgcyclic valid_split sgdma_cyclic_trans
rxsgcyclic-rxbuserr sr d halted = rw halted (refl, refl)

start_rings-NoBusError :
    (tx_sr rx_sr : ℕ) (d : Dma)
    → sgdma_sgallowed tx_sr ≡ true
    → sgdma_sgallowed rx_sr ≡ true
    → NoBusError (start_rings tx_sr rx_sr d)
unfolding start_rings
start_rings-NoBusError tx_sr rx_sr d halted halted' =
    let sends = (ethdma_txsgnormal tx_sr mtus_buffer xtemac_mtu d).1 in
    let (tx, rx) = rxsgcyclic-rxbuserr rx_sr sends halted' in
    (tx ∙ txsgnormal-txbuserr tx_sr d halted, rx)

recover-NoBusError :
    (tx_sr rx_sr : ℕ) (status : Option ℕ) (scsr : ℕ) (stack : Phylink) (s : Mac)
    → sgdma_sgallowed tx_sr ≡ true
    → sgdma_sgallowed rx_sr ≡ true
    → NoBusError (recover tx_sr rx_sr status (some scsr) stack s).dma
unfolding recover
recover-NoBusError tx_sr rx_sr status scsr stack s halted halted' =
    let stopped = trx_disable s in
    let r = trx_reset (record stopped { dma = ethdma_trxreset (ethdma_trxstop stopped.dma) }) in
    let m : Mac = record r { dma = start_rings tx_sr rx_sr r.dma } in
    let (regs, sp, th, rh, te, re, dma, uaw0, uaw1) = trx_enable_lem status scsr stack m in
    subst NoBusError (sym dma) (start_rings-NoBusError tx_sr rx_sr r.dma halted halted')

or-swap : (a b : Bool) → (a || b) ≡ true → (b || a) ≡ true
or-swap true true h = refl
or-swap true false h = refl
or-swap false b h = rw h refl

module _ (lw : Lwip) where
  traffic-phy : (s : Eth lw) → (traffic lw s).mac.phy ≡ s.mac.phy
  unfolding traffic
  traffic-phy s = refl

  -- What the service does when a bus error is signalled, and no change of the link.
  eth_service-bus :
      (first second third : PhyReads) (irqs : List (Option ℕ × ℕ)) (tx_sr rx_sr : ℕ) (s : Eth lw)
      → s.mac.phy.link_sig ≡ false
      → (let d = (traffic lw s).mac.dma in (d.ethdma_txbuserr || d.ethdma_rxbuserr) ≡ true)
      → let u = traffic lw s in
        let t = bus_event lw tx_sr rx_sr third (tell lw block_signals u) in
        eth_service lw true first second third irqs tx_sr rx_sr s ≡ tell lw unblock_signals t
  unfolding eth_service
  eth_service-bus first second third irqs tx_sr rx_sr s no_link bus =
      let d = (traffic lw s).mac.dma in
      let none_seen : (traffic lw s).mac.phy.link_sig ≡ false =
        ap (λ (p : Phy). p.link_sig) (traffic-phy s) ∙ no_link in
      rw (none_seen, bus, or-swap d.ethdma_txbuserr d.ethdma_rxbuserr bus) refl

  -- Suppose that a signal is pending, that one of the two engines has reported a bus error when the
  -- packets of this call are through, and that the link has not changed; that both engines are halted
  -- when the recovery reads their status, and that the PHY can be read. Then the call leaves both rings
  -- set up and empty and no bus error signalled; the transceiver was switched off and reset, and
  -- switched on again exactly if the PHY says that the link is up. The error goes to the journal, the
  -- signals are unblocked behind it, and MAC address, link state and the state of lwIP stay as the
  -- packets left them.
  pub service-recovers :
      (first second : PhyReads) (irqs : List (Option ℕ × ℕ)) (tx_sr rx_sr : ℕ)
      → (status : Option ℕ) (scsr : ℕ) (stack : Phylink) (s : Eth lw) → s.mac.phy.link_sig ≡ false
      → (let d = (traffic lw s).mac.dma in (d.ethdma_txbuserr || d.ethdma_rxbuserr) ≡ true)
      → sgdma_sgallowed tx_sr ≡ true
      → sgdma_sgallowed rx_sr ≡ true
      → let u = traffic lw s in
        let t = eth_service lw true first second (reads lw status scsr stack) irqs tx_sr rx_sr s in
        let off =
          await_low tx_reset
          ∷ put_bit tx_reset true
          ∷ await_low rx_reset
          ∷ put_bit rx_reset true
          ∷ put_bit receiver_enable false
          ∷ put_bit transmit_enable false
          ∷ s.mac.regs in
        IsFresh t.mac.dma
        × NoBusError t.mac.dma
        × (t.mac.regs ≡ (if is_up status then on_words (indicated scsr stack) ++ off else off))
        × (t.notes ≡ unblock_signals ∷ dma_error ∷ block_signals ∷ u.notes)
        × (t.mac.uaw0 ≡ s.mac.uaw0)
        × (t.mac.uaw1 ≡ s.mac.uaw1)
        × (t.link_reg ≡ s.link_reg)
        × (t.stack ≡ u.stack)
  unfolding bus_event traffic
  service-recovers first second irqs tx_sr rx_sr status scsr stack s no_link bus halted halted' =
      let u = traffic lw s in
      let (fresh, regs, uaw0, uaw1) =
        recover_lem tx_sr rx_sr status scsr stack u.mac halted halted' in
      let clear = recover-NoBusError tx_sr rx_sr status scsr stack u.mac halted halted' in
      rw (eth_service-bus first second (reads lw status scsr stack) irqs tx_sr rx_sr s no_link bus)
        (fresh, clear, regs, refl, uaw0, uaw1, refl, refl)
