-- ===== src/Net/Service.antt =====
-- src/arch/mb_le/netdev.c and src/arch/mb_le/services/eth_service.c: packets between the Ethernet
-- DMA and lwIP, and the service.
pub mod Drain
pub mod Frames
pub mod Fill
pub mod Receive
pub mod Output
pub mod Events
pub mod Quiet
pub mod BusError
use rpv_platforms_evt_driven.Base.{
  ℕ, zero, suc, ◌==◌, if◌then◌else◌, Bool, true, false, not, ◌&&◌, ◌||◌, Option, none, some, List,
  [], ◌∷◌, ◌++◌, length,
}
use rpv_platforms_evt_driven.Dma.State.{Dma}
use rpv_platforms_evt_driven.Dma.Counters.{ethdma_txbuserr_signal, ethdma_rxbuserr_signal}
use rpv_platforms_evt_driven.Dma.Rx.{ethdma_rxsgcmplt, eth_rxqcount}
use rpv_platforms_evt_driven.Dma.Tx.{ethdma_txsgenque, ethdma_txsgflush}
use rpv_platforms_evt_driven.Net.Phy.{Phy, Phylink, phylink, on_phy_irq}
use rpv_platforms_evt_driven.Net.Mac.{Mac, xtemac_mtu, trx_enable, trx_disable, recover}
use rpv_platforms_evt_driven.Net.Lwip.{Lwip}

pub data ErrT : Type 0 where
  err_ok err_if : ErrT

-- `lwip_ethOutput`, for the payloads of a chain of buffers.
unfoldable pub eth_output : List (List ℕ) → Dma → ErrT × Dma
eth_output [] d = (err_ok, d)
eth_output (payload ∷ chain) d =
    let (slot, d') = ethdma_txsgenque payload d in
    let rest = eth_output chain d' in elim slot [ none ↦ (err_if, d') | some a ↦ rest ]

pub data LinkReg : Type 0 where
  eth_linkup eth_linkdown : LinkReg

-- What the service tells the kernel.
pub data EthNote : Type 0 where
  block_signals unblock_signals alloc_failed input_failed dma_error : EthNote

-- What the reads of the PHY in one call of `_xtemac_phylink` return, and what the caller's variable
-- holds before.
pub record PhyReads : Type 0 where
  pub status : Option ℕ
  pub speed : Option ℕ
  pub stack : Phylink

-- Interrupts of the PHY, each with what it reads and finds on the stack.
unfoldable pub phy_irqs : List (Option ℕ × ℕ) → Phy → Phy
phy_irqs [] p = p
phy_irqs ((isr, stack) ∷ irqs) p = phy_irqs irqs (on_phy_irq isr stack p)

module _ (lw : Lwip) where
  -- `lwip_ethInput` behind `_ethdma_rxsgcmplt`: one packet of the loop.
  pub record Input : Type 0 where
    pub stack : lw.Stack
    pub dma : Dma
    pub alloc_error : Bool
    pub input_error : Bool

  abbrev pub new_input : lw.Stack → Dma → Input
  new_input stack d = record { stack = stack; dma = d; alloc_error = false; input_error = false }

  unfoldable pub take_packet : List ℕ → Input → Input
  take_packet packet s =
      let (p, stack) = lw.pbuf_alloc (length packet) s.stack in
      let (ok, stack', dma) = lw.input packet stack s.dma in
      if not p
      then record s { stack = stack; alloc_error = true }
      else if ok
      then record s { stack = stack'; dma = dma }
      else record s { stack = lw.pbuf_free stack'; dma = dma; input_error = true }

  -- The loop, over the packets that were counted.
  unfoldable pub input_loop : (rx_qcount : ℕ) → Input → Input
  input_loop zero s = s
  input_loop (suc n) s =
      let (out, dma) = ethdma_rxsgcmplt xtemac_mtu s.dma in
      let seen : Input = record s { dma = dma } in
      elim out [ none ↦ seen | some p ↦ input_loop n (take_packet p.1 seen) ]

  -- `lwip_ethInput`
  unfoldable pub eth_input : lw.Stack → Dma → Input
  eth_input stack d =
      if not (lw.has_netif stack) || (not (lw.netif_is_up stack) || not (lw.netif_is_link_up stack))
      then new_input stack d
      else input_loop (eth_rxqcount d) (new_input stack d)

  -- The statics of the service, lwIP, the driver, the signal mask and the journal. Newest note first.
  pub record Eth : Type 0 where
    pub stack : lw.Stack
    pub mac : Mac
    pub lk : Phylink
    pub link_reg : LinkReg
    pub notes : List EthNote

  abbrev pub tell : EthNote → Eth → Eth
  tell n s = record s { notes = n ∷ s.notes }

  -- `eth_linkup`, with what the reads of the PHY return.
  unfoldable pub link_up : PhyReads → Eth → Eth
  link_up r s =
      let mac = trx_enable r.status r.speed r.stack s.mac in
      let (stack, dma) = lw.netif_set_link_up s.stack mac.dma in
      if lw.has_netif s.stack
      then record s { stack = stack; mac = record mac { dma = dma } }
      else record s { mac = mac }

  -- `eth_linkdown`
  unfoldable pub link_down : Eth → Eth
  link_down s =
      let mac = trx_disable s.mac in
      let (stack, dma) = lw.netif_set_link_down s.stack mac.dma in
      if lw.has_netif s.stack
      then record s { stack = stack; mac = record mac { dma = dma } }
      else record s { mac = mac }

  -- The `switch` of `eth_service`, with the reads of `_xtemac_trxenable`.
  unfoldable pub follow_link : (second : PhyReads) (up : Bool) → Phylink → Phy → Eth → Eth
  follow_link second true lk phy s =
      link_up second (record s { mac = record s.mac { phy = phy }; lk = lk; link_reg = eth_linkup })
  follow_link second false lk phy s =
      link_down (record s { mac = record s.mac { phy = phy }; lk = lk; link_reg = eth_linkdown })

  -- The first `if` of `eth_service`, when the link has changed: the link is read here, and again in
  -- `_xtemac_trxenable`, and interrupts of the PHY may fall between the two.
  unfoldable pub link_event : (first second : PhyReads) (irqs : List (Option ℕ × ℕ)) → Eth → Eth
  link_event first second irqs s =
      let (up, lk, phy) = phylink first.status first.speed (some s.lk) s.mac.phy in
      follow_link second up (elim lk [ none ↦ s.lk | some l ↦ l ]) (phy_irqs irqs phy) s

  -- The second `if`, after a bus error.
  unfoldable pub bus_event : (tx_sr rx_sr : ℕ) → PhyReads → Eth → Eth
  bus_event tx_sr rx_sr r s =
      tell dma_error (record s { mac = recover tx_sr rx_sr r.status r.speed r.stack s.mac })

  -- The start of `eth_service`: received packets, timers, and the packets to send.
  unfoldable pub traffic : Eth → Eth
  traffic s =
      let got = eth_input s.stack s.mac.dma in
      let (stack, dma) = lw.sys_check_timeouts got.stack got.dma in
      record s {
        stack = stack;
        mac = record s.mac { dma = ethdma_txsgflush dma };
        notes =
            (if got.alloc_error then alloc_failed ∷ [] else [])
            ++ ((if got.input_error then input_failed ∷ [] else []) ++ s.notes);
      }

  -- `eth_service`. `pending` says whether SIGINT or SIGBUS is.
  unfoldable pub eth_service :
      (pending : Bool)
      → (first second third : PhyReads) (irqs : List (Option ℕ × ℕ)) → (tx_sr rx_sr : ℕ) → Eth
      → Eth
  eth_service pending first second third irqs tx_sr rx_sr s0 =
      let s1 = tell block_signals (traffic s0) in
      let d = s1.mac.dma in
      let eth_sgl = s1.mac.phy.link_sig || (ethdma_txbuserr_signal d || ethdma_rxbuserr_signal d) in
      let s2 = if s1.mac.phy.link_sig then link_event first second irqs s1 else s1 in
      let d' = s2.mac.dma in
      let s3 =
        if eth_sgl && (ethdma_rxbuserr_signal d' || ethdma_txbuserr_signal d')
        then bus_event tx_sr rx_sr third s2
        else s2 in
      if not pending then s1 else if eth_sgl then tell unblock_signals s3 else s3
