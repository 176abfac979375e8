-- ===== src/Net/Mac/Start.antt =====
-- The start of the interface.
use rpv_platforms_evt_driven.Base.{
  ℕ, ◌≡◌, refl, Bool, true, false, Option, some, List, [], ◌∷◌, ◌++◌,
}
use rpv_platforms_evt_driven.Base.Bits.{bit_at}
use rpv_platforms_evt_driven.Dma.Engine.{sgdma_sgallowed}
use rpv_platforms_evt_driven.Net.Phy.{phy_enable, xtemac_phy, asks, write_stp}
use rpv_platforms_evt_driven.Net.Mdio.{mdio_setup}
use rpv_platforms_evt_driven.Net.Phy.Link.{phy_reset-ends}
use rpv_platforms_evt_driven.Net.Mac.{
  Mac, def_macaddr, set_mac, xtemac_mac, trx_reset, start_mac, xtemac_start,
}
use rpv_platforms_evt_driven.Net.Mac.Transceiver.{IsFresh, start_rings-IsFresh}

start_mac-IsFresh :
    (tx_sr rx_sr : ℕ) (s : Mac)
    → sgdma_sgallowed tx_sr ≡ true
    → sgdma_sgallowed rx_sr ≡ true
    → let t = start_mac tx_sr rx_sr s in IsFresh t.dma × (xtemac_mac [] 6 t ≡ def_macaddr)
unfolding start_mac trx_reset set_mac xtemac_mac
start_mac-IsFresh tx_sr rx_sr s halted halted' =
    (start_rings-IsFresh tx_sr rx_sr s.dma halted halted', refl)

-- With both engines halted, the start ends when a read of the PHY returns a word with the reset bit clear,
-- whatever the reads before return and whether the commands to the PHY could be written or not. Both
-- rings are then set up and empty, and the address that is read is the default one.
pub xtemac_start-IsFresh :
    (ready_reset ready_bmcr ready_imr : Bool) (before : List (Option ℕ)) (w : ℕ)
    → (behind : List (Option ℕ)) (tx_sr rx_sr : ℕ) (s : Mac) → bit_at w 15 ≡ false
    → sgdma_sgallowed tx_sr ≡ true
    → sgdma_sgallowed rx_sr ≡ true
    → (t : Mac) × (xtemac_start ready_reset ready_bmcr ready_imr
          (before ++ (some w ∷ behind))
          tx_sr
          rx_sr
          s
        ≡ some t)
      × IsFresh t.dma
      × (xtemac_mac [] 6 t ≡ def_macaddr)
unfolding xtemac_start xtemac_phy
xtemac_start-IsFresh ready_reset ready_bmcr ready_imr before w behind tx_sr rx_sr s low halted
      halted' =
    let started =
      asks (record s.phy { link_sig = false }) (write_stp (mdio_setup 0x14 true) ∷ []) in
    let (p, ends) = phy_reset-ends ready_reset before w behind started low in
    let (rings, address) =
      start_mac-IsFresh tx_sr rx_sr (record s { phy = phy_enable ready_bmcr ready_imr p }) halted
        halted' in
    rw (xtemac_start, xtemac_phy, ends) (_, refl, rings, address)
