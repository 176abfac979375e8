-- ===== src/Net/Mac/Transceiver.antt =====
-- The transceiver is switched on as the link is, and recovers with empty rings.
use rpv_platforms_evt_driven.Base.{
  ℕ, ◌+◌, ◌*◌, ◌^◌, ◌≡◌, refl, sym, ap, subst, ◌∙◌, inl, if-both, not, arith, ◌==◌, if◌then◌else◌,
  Bool, true, false, Option, none, some, List, [], ◌∷◌, ◌++◌,
}
use rpv_platforms_evt_driven.Base.Bits.{bit_at, field}
use rpv_platforms_evt_driven.Dma.Bd.{Bd, valid_split}
use rpv_platforms_evt_driven.Dma.Bd.Layout.{IsRing}
use rpv_platforms_evt_driven.Dma.State.{Dma, s2mm_ring, s2mm_buffer, mm2s_ring, mm2s_buffer}
use rpv_platforms_evt_driven.Dma.Engine.{sgdma_sgallowed, sgdma_cyclic_trans}
use rpv_platforms_evt_driven.Dma.Rx.{ethdma_rxsgcyclic}
use rpv_platforms_evt_driven.Dma.Rx.Queue.{IsRx, waiting}
use rpv_platforms_evt_driven.Dma.Rx.Setup.{rxsgcyclic-IsRing, rxsgcyclic_outside}
use rpv_platforms_evt_driven.Dma.Tx.{ethdma_txsgnormal}
use rpv_platforms_evt_driven.Dma.Tx.Slots.{IsTx, queued, packets, slot_bd}
use rpv_platforms_evt_driven.Dma.Tx.Enque.{txsgnormal-IsTx}
use rpv_platforms_evt_driven.Net.Phy.{
  Phy, Phylink, PhySpeed, PhyDuplex, speed_10mbps, speed_100mbps, link_half_duplex,
  link_full_duplex, phylink,
}
use rpv_platforms_evt_driven.Net.Phy.Link.{indicated, is_up, phylink_lem}
use rpv_platforms_evt_driven.Net.Mac.{
  Mac, MacEffect, xtemac_mtu, mtus_buffer, write_speed_cfg, write_tx_max_frame, write_rx_max_frame,
  write_tx_cfg, write_rx_cfg, put_bit, await_low, tx_reset, rx_reset, receiver_enable,
  transmit_enable, trx_reset, ethdma_trxstop, ethdma_trxreset, rx_cfg_reg, tx_cfg_reg,
  max_frame_reg, speed_cfg_reg, rx_on, tx_on, is_half, mac_speed, trx_configure, trx_enable,
  trx_disable, start_rings, recover,
}

-- The words that switch the transceiver on, newest first: receiving and sending enabled (bit 28) with
-- VLAN frames (bit 27), at half duplex or not (bit 26); without the checks of the length of received
-- frames (bits 24 and 25); frames of at most 1536 bytes both ways; and the speed (bits 30 and 31).
abbrev pub half_bit : PhyDuplex → ℕ
half_bit link_half_duplex = 2 ^ 26
half_bit link_full_duplex = 0

abbrev pub speed_bits : PhySpeed → ℕ
speed_bits speed_10mbps = 0
speed_bits speed_100mbps = 2 ^ 30

abbrev pub on_words : Phylink → List MacEffect
on_words lk =
    write_rx_cfg (2 ^ 24 + 2 ^ 25 + half_bit lk.link + 2 ^ 27 + 2 ^ 28)
    ∷ write_tx_cfg (half_bit lk.link + 2 ^ 27 + 2 ^ 28)
    ∷ write_rx_max_frame (1536 + 2 ^ 16)
    ∷ write_tx_max_frame (1536 + 2 ^ 16)
    ∷ write_speed_cfg (speed_bits lk.speed)
    ∷ []

-- The words that the code composes.
abbrev code_words : Phylink → List MacEffect
code_words lk =
    write_rx_cfg (rx_cfg_reg (rx_on lk))
    ∷ write_tx_cfg (tx_cfg_reg (tx_on lk))
    ∷ write_rx_max_frame (max_frame_reg xtemac_mtu true)
    ∷ write_tx_max_frame (max_frame_reg xtemac_mtu true)
    ∷ write_speed_cfg (speed_cfg_reg (mac_speed lk.speed))
    ∷ []

code_words-on_words : (lk : Phylink) → code_words lk ≡ on_words lk
unfolding rx_cfg_reg tx_cfg_reg max_frame_reg speed_cfg_reg
code_words-on_words lk = words lk.speed lk.link
  where
    words :
        (speed : PhySpeed) (link : PhyDuplex)
        → code_words (record { speed = speed; link = link })
          ≡ on_words (record { speed = speed; link = link })
    words speed_10mbps link_half_duplex = refl
    words speed_10mbps link_full_duplex = refl
    words speed_100mbps link_half_duplex = refl
    words speed_100mbps link_full_duplex = refl

-- The words for one duplex mode.
duplex_words :
    (lk : Phylink) (link : PhyDuplex)
    → lk.link ≡ link
    → (bit_at (tx_cfg_reg (tx_on lk)) 26 ≡ is_half link)
      × (bit_at (rx_cfg_reg (rx_on lk)) 26 ≡ is_half link)
      × (bit_at (tx_cfg_reg (tx_on lk)) 28 ≡ true)
      × (bit_at (rx_cfg_reg (rx_on lk)) 28 ≡ true)
unfolding tx_cfg_reg rx_cfg_reg
duplex_words lk link_half_duplex e = rw e (refl, refl, refl, refl)
duplex_words lk link_full_duplex e = rw e (refl, refl, refl, refl)

speed_word : (speed : PhySpeed) → field (speed_cfg_reg (mac_speed speed)) 30 2 ≡ mac_speed speed
unfolding speed_cfg_reg
speed_word speed_10mbps = refl
speed_word speed_100mbps = refl

configured :
    (up : Bool) (lk stack : Phylink) (s : Mac)
    → let t = trx_configure up (some (if up then lk else stack)) s in
      (t.regs ≡ (if up then on_words lk ++ s.regs else s.regs))
      × (t.dma ≡ s.dma)
      × (t.uaw0 ≡ s.uaw0)
      × (t.uaw1 ≡ s.uaw1)
unfolding trx_configure
configured true lk stack s = (ap (λ ws. ws ++ s.regs) (code_words-on_words lk), refl, refl, refl)
configured false lk stack s = (refl, refl, refl, refl)

-- If the PHY says that the link is up, the transceiver is switched on for the speed and the duplex
-- mode that the speed register indicates: the speed word has the speed in its bits 30 and 31, the
-- words for sending and receiving have bit 28, that enables them, and bit 26 exactly for half duplex.
-- If the link is down, no register is written. Rings and address stay as they are.
pub trx_enable_lem :
    (status : Option ℕ) (scsr : ℕ) (stack : Phylink) (s : Mac)
    → let t = trx_enable status (some scsr) stack s in
      let lk = indicated scsr stack in
      (t.regs ≡ (if is_up status then on_words lk ++ s.regs else s.regs))
      × (field (speed_cfg_reg (mac_speed lk.speed)) 30 2 ≡ mac_speed lk.speed)
      × (bit_at (tx_cfg_reg (tx_on lk)) 26 ≡ is_half lk.link)
      × (bit_at (rx_cfg_reg (rx_on lk)) 26 ≡ is_half lk.link)
      × (bit_at (tx_cfg_reg (tx_on lk)) 28 ≡ true)
      × (bit_at (rx_cfg_reg (rx_on lk)) 28 ≡ true)
      × (t.dma ≡ s.dma)
      × (t.uaw0 ≡ s.uaw0)
      × (t.uaw1 ≡ s.uaw1)
unfolding trx_enable
trx_enable_lem status scsr stack s =
    let lk = indicated scsr stack in
    let (up, sig, link) = phylink_lem status scsr stack s.phy in
    let phy = (phylink status (some scsr) (some stack) s.phy).2 in
    let (regs, dma, uaw0, uaw1) = configured (is_up status) lk stack (record s { phy = phy }) in
    let (tx_half, rx_half, tx_en, rx_en) = duplex_words lk lk.link refl in
    rw (up, link) (regs, speed_word lk.speed, tx_half, rx_half, tx_en, rx_en, dma, uaw0, uaw1)

configured-phy : (up : Bool) (lk : Option Phylink) (s : Mac) → (trx_configure up lk s).phy ≡ s.phy
unfolding trx_configure
configured-phy false lk s = refl
configured-phy true none s = refl
configured-phy true (some lk) s = refl

-- The signal is taken, whatever the link is.
pub trx_enable-link_sig :
    (status : Option ℕ) (scsr : ℕ) (stack : Phylink) (s : Mac)
    → (trx_enable status (some scsr) stack s).phy.link_sig ≡ false
unfolding trx_enable
trx_enable-link_sig status scsr stack s =
    let (up, lk, phy) = phylink status (some scsr) (some stack) s.phy in
    ap (λ (p : Phy). p.link_sig) (configured-phy up lk (record s { phy = phy }))
    ∙ (phylink_lem status scsr stack s.phy).1

-- Both rings after they were set up on halted engines.
pub record IsFresh (d : Dma) : Type 0 where
  pub unlocked : d.txtail ≡ 0
  pub none_queued : queued d ≡ []
  pub send_ring : IsTx d 10 xtemac_mtu
  pub queue : IsRx d
  pub none_waits : waiting d ≡ 0
  pub receive_ring : IsRing d.bds s2mm_ring s2mm_buffer 10 xtemac_mtu

rxsgcyclic-tx :
    (sr alloc_len io_buff : ℕ) (d : Dma)
    → let e = (ethdma_rxsgcyclic sr alloc_len io_buff d).1 in
      (e.txtail ≡ d.txtail) × (e.txdepth ≡ d.txdepth)
unfolding ethdma_rxsgcyclic sgdma_cyclic_trans
rxsgcyclic-tx sr alloc_len io_buff d =
    if-both (λ (o : Option ℕ × Dma). (o.1.txtail ≡ d.txtail) × (o.1.txdepth ≡ d.txdepth))
      (not (valid_split alloc_len io_buff)) (refl, refl)
      (if-both (λ (o : Option ℕ × Dma). (o.1.txtail ≡ d.txtail) × (o.1.txdepth ≡ d.txdepth))
        (not (sgdma_sgallowed sr)) (refl, refl) (refl, refl))

txsgnormal-tail :
    (sr : ℕ) (d : Dma)
    → sgdma_sgallowed sr ≡ true
    → (ethdma_txsgnormal sr mtus_buffer xtemac_mtu d).1.txtail ≡ 0
unfolding ethdma_txsgnormal valid_split
txsgnormal-tail sr d halted = rw halted refl

pub start_rings-IsFresh :
    (tx_sr rx_sr : ℕ) (d : Dma)
    → sgdma_sgallowed tx_sr ≡ true
    → sgdma_sgallowed rx_sr ≡ true
    → IsFresh (start_rings tx_sr rx_sr d)
unfolding start_rings valid_split
start_rings-IsFresh tx_sr rx_sr d halted halted' =
    let sends = (ethdma_txsgnormal tx_sr mtus_buffer xtemac_mtu d).1 in
    let e = (ethdma_rxsgcyclic rx_sr mtus_buffer xtemac_mtu sends).1 in
    let (out, empty, tx) =
      txsgnormal-IsTx tx_sr mtus_buffer xtemac_mtu d refl halted (omega arith) (omega arith) in
    let (out', rx, none_wait, ring, trace) =
      rxsgcyclic-IsRing rx_sr mtus_buffer xtemac_mtu sends refl halted' in
    let (tail, depth) = rxsgcyclic-tx rx_sr mtus_buffer xtemac_mtu sends in
    let start : e.txtail ≡ 0 = tail ∙ txsgnormal-tail tx_sr d halted in
    record {
      unlocked = start;
      none_queued = ap (λ n. packets e 0 n) start;
      send_ring = record {
        depth = depth ∙ tx.depth;
        few = tx.few;
        some_slot = tx.some_slot;
        area = tx.area;
        linked = λ i h.
            subst
              (λ (b : Bd).
                (b.next ≡ (if i + 1 == 10 then mm2s_ring else slot_bd (i + 1)))
                × (b.buffer ≡ mm2s_buffer + i * xtemac_mtu))
              (sym (
                rxsgcyclic_outside rx_sr mtus_buffer xtemac_mtu sends refl halted' (slot_bd i)
                  (omega arith) (omega arith) (omega arith)))
              (tx.linked i h);
        tail = inl (omega (arith, start));
        short = λ i h k. absurd (omega (arith, start));
      };
      queue = rx;
      none_waits = none_wait;
      receive_ring = ring;
    }

-- With both engines halted, a recovery from a bus error leaves both rings set up and empty, with ten
-- slots of 1536 bytes each, whatever state they were in; the transceiver is switched off and reset,
-- and on again exactly if the PHY says that the link is up. The address stays.
pub recover_lem :
    (tx_sr rx_sr : ℕ) (status : Option ℕ) (scsr : ℕ) (stack : Phylink) (s : Mac)
    → sgdma_sgallowed tx_sr ≡ true
    → sgdma_sgallowed rx_sr ≡ true
    → let t = recover tx_sr rx_sr status (some scsr) stack s in
      let off =
        await_low tx_reset
        ∷ put_bit tx_reset true
        ∷ await_low rx_reset
        ∷ put_bit rx_reset true
        ∷ put_bit receiver_enable false
        ∷ put_bit transmit_enable false
        ∷ s.regs in
      IsFresh t.dma
      × (t.regs ≡ (if is_up status then on_words (indicated scsr stack) ++ off else off))
      × (t.uaw0 ≡ s.uaw0)
      × (t.uaw1 ≡ s.uaw1)
unfolding recover trx_reset trx_disable
recover_lem tx_sr rx_sr status scsr stack s halted halted' =
    let stopped = trx_disable s in
    let r = trx_reset (record stopped { dma = ethdma_trxreset (ethdma_trxstop stopped.dma) }) in
    let m : Mac = record r { dma = start_rings tx_sr rx_sr r.dma } in
    let (regs, sp, th, rh, te, re, dma, uaw0, uaw1) = trx_enable_lem status scsr stack m in
    (
      subst (λ d. IsFresh d) (sym dma) (start_rings-IsFresh tx_sr rx_sr r.dma halted halted'),
      regs,
      uaw0,
      uaw1,
    )
