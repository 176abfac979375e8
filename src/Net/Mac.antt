-- ===== src/Net/Mac.antt =====
-- src/arch/mb_le/sys/xtemac.c: the Ethernet MAC, over the PHY and the Ethernet DMA.
pub mod Address
pub mod Transceiver
pub mod Start
use rpv_platforms_evt_driven.Base.{
  ℕ, ◌+◌, ◌*◌, ◌%◌, ◌^◌, ◌==◌, ltb, if◌then◌else◌, Bool, true, false, not, ◌&&◌, ◌||◌, Option, none,
  some, List, [], ◌∷◌, ◌++◌, drop, get_or,
}
use rpv_platforms_evt_driven.Base.Bits.{to_bit, field}
use rpv_platforms_evt_driven.Dma.State.{Dma, xdma2_mm2s}
use rpv_platforms_evt_driven.Dma.Engine.{sgdma_engreset, sgdma_engstop}
use rpv_platforms_evt_driven.Dma.Rx.{ethdma_rxsgcyclic}
use rpv_platforms_evt_driven.Dma.Tx.{ethdma_txsgnormal}
use rpv_platforms_evt_driven.Net.Phy.{
  Phy, Phylink, PhySpeed, speed_10mbps, speed_100mbps, PhyDuplex, link_half_duplex,
  link_full_duplex, phylink, xtemac_phy,
}

-- XTEMAC_MTU, XTEMAC_MTUS_BUFFER and XTEMAC_MAC_ADDRLEN
abbrev pub xtemac_mtu : ℕ
xtemac_mtu = 1536

abbrev pub mtus_buffer : ℕ
mtus_buffer = xtemac_mtu * 10

abbrev pub mac_addrlen : ℕ
mac_addrlen = 6

-- `xtemac_rx_cfg_w1_t`, without its reserved bits.
pub record RxCfg : Type 0 where
  pub pause_mac_addr_high : ℕ
  pub ctrl_len_chk_dis : Bool
  pub len_type_chk_dis : Bool
  pub half_duplex : Bool
  pub vlan_enable : Bool
  pub receiver_enable : Bool
  pub inband_fcs_enable : Bool
  pub jumbo_frame_enable : Bool
  pub reset : Bool

unfoldable pub rx_cfg_reg : RxCfg → ℕ
rx_cfg_reg c =
    c.pause_mac_addr_high % 2 ^ 16
    + to_bit c.ctrl_len_chk_dis * 2 ^ 24
    + to_bit c.len_type_chk_dis * 2 ^ 25
    + to_bit c.half_duplex * 2 ^ 26
    + to_bit c.vlan_enable * 2 ^ 27
    + to_bit c.receiver_enable * 2 ^ 28
    + to_bit c.inband_fcs_enable * 2 ^ 29
    + to_bit c.jumbo_frame_enable * 2 ^ 30
    + to_bit c.reset * 2 ^ 31

-- `xtemac_tx_cfg_t`, without its reserved bits.
pub record TxCfg : Type 0 where
  pub ifg_adjust_enable : Bool
  pub half_duplex : Bool
  pub vlan_enable : Bool
  pub transmit_enable : Bool
  pub inband_fcs_enable : Bool
  pub jumbo_frame_enable : Bool
  pub reset : Bool

unfoldable pub tx_cfg_reg : TxCfg → ℕ
tx_cfg_reg c =
    to_bit c.ifg_adjust_enable * 2 ^ 25
    + to_bit c.half_duplex * 2 ^ 26
    + to_bit c.vlan_enable * 2 ^ 27
    + to_bit c.transmit_enable * 2 ^ 28
    + to_bit c.inband_fcs_enable * 2 ^ 29
    + to_bit c.jumbo_frame_enable * 2 ^ 30
    + to_bit c.reset * 2 ^ 31

-- `xtemac_rx_max_frame_cfg_t` and `xtemac_tx_max_frame_cfg_t`, and `xtemac_speed_cfg_t`
unfoldable pub max_frame_reg : (len : ℕ) (en : Bool) → ℕ
max_frame_reg len en = len % 2 ^ 15 + to_bit en * 2 ^ 16

unfoldable pub speed_cfg_reg : (mac_speed : ℕ) → ℕ
speed_cfg_reg mac_speed = mac_speed % 2 ^ 2 * 2 ^ 30

-- The bits that the code sets and clears alone.
pub data MacBit : Type 0 where
  rx_reset tx_reset receiver_enable transmit_enable : MacBit

-- What the code asks of the registers of the MAC. A wait is the loop on a reset bit.
pub data MacEffect : Type 0 where
  write_speed_cfg write_tx_max_frame write_rx_max_frame write_tx_cfg write_rx_cfg : ℕ → MacEffect
  put_bit : MacBit → Bool → MacEffect
  await_low : MacBit → MacEffect

-- The address registers, the effects on the others, newest first, and what the driver uses.
pub record Mac : Type 0 where
  pub uaw0 : ℕ
  pub uaw1 : ℕ
  pub regs : List MacEffect
  pub phy : Phy
  pub dma : Dma

abbrev pub does : Mac → List MacEffect → Mac
does s [] = s
does s (e ∷ es) = does (record s { regs = e ∷ s.regs }) es

-- `xtemac_setmac`
unfoldable pub set_mac : (mac : List ℕ) → Mac → Mac
set_mac mac s = record s {
  uaw0 =
      get_or mac 5 0 % 2 ^ 8
      + get_or mac 4 0 % 2 ^ 8 * 2 ^ 8
      + get_or mac 3 0 % 2 ^ 8 * 2 ^ 16
      + get_or mac 2 0 % 2 ^ 8 * 2 ^ 24;
  uaw1 = get_or mac 1 0 % 2 ^ 8 + get_or mac 0 0 % 2 ^ 8 * 2 ^ 8;
}

-- `_xtemac_mac`: the bytes at `dst_mac` after it.
unfoldable pub xtemac_mac : (dst_mac : List ℕ) (len : ℕ) → Mac → List ℕ
xtemac_mac dst_mac len s =
    if ltb mac_addrlen len
    then dst_mac
    else (field s.uaw1 8 8
        ∷ field s.uaw1 0 8
        ∷ field s.uaw0 24 8
        ∷ field s.uaw0 16 8
        ∷ field s.uaw0 8 8
        ∷ field s.uaw0 0 8
        ∷ [])
      ++ drop mac_addrlen dst_mac

-- `xtemac_trxreset`
unfoldable pub trx_reset : Mac → Mac
trx_reset s =
    does s
      (put_bit rx_reset true ∷ await_low rx_reset ∷ put_bit tx_reset true ∷ await_low tx_reset ∷ [])

-- `_xtemac_trxdisable`
unfoldable pub trx_disable : Mac → Mac
trx_disable s = does s (put_bit transmit_enable false ∷ put_bit receiver_enable false ∷ [])

abbrev pub is_half : PhyDuplex → Bool
is_half link_half_duplex = true
is_half link_full_duplex = false

abbrev pub mac_speed : PhySpeed → ℕ
mac_speed speed_10mbps = 0
mac_speed speed_100mbps = 1

abbrev pub rx_on : Phylink → RxCfg
rx_on phy = record {
  pause_mac_addr_high = 0;
  ctrl_len_chk_dis = true;
  len_type_chk_dis = true;
  half_duplex = is_half phy.link;
  vlan_enable = true;
  receiver_enable = true;
  inband_fcs_enable = false;
  jumbo_frame_enable = false;
  reset = false;
}

abbrev pub tx_on : Phylink → TxCfg
tx_on phy = record {
  ifg_adjust_enable = false;
  half_duplex = is_half phy.link;
  vlan_enable = true;
  transmit_enable = true;
  inband_fcs_enable = false;
  jumbo_frame_enable = false;
  reset = false;
}

-- The end of `_xtemac_trxenable`, for what `_xtemac_phylink` returned.
unfoldable pub trx_configure : Bool → Option Phylink → Mac → Mac
trx_configure false lk s = s
trx_configure true none s = s
trx_configure true (some lk) s = does s (
    write_speed_cfg (speed_cfg_reg (mac_speed lk.speed))
    ∷ write_tx_max_frame (max_frame_reg xtemac_mtu true)
    ∷ write_rx_max_frame (max_frame_reg xtemac_mtu true)
    ∷ write_tx_cfg (tx_cfg_reg (tx_on lk))
    ∷ write_rx_cfg (rx_cfg_reg (rx_on lk))
    ∷ [])

-- `_xtemac_trxenable`, with what the reads of the PHY return, and what its uninitialised variable
-- holds.
unfoldable pub trx_enable : (status speed : Option ℕ) → (stack : Phylink) → Mac → Mac
trx_enable status speed stack s =
    let (up, lk, phy) = phylink status speed (some stack) s.phy in
    trx_configure up lk (record s { phy = phy })

-- The two rings, with the status registers of the two channels.
unfoldable pub start_rings : (tx_sr rx_sr : ℕ) → Dma → Dma
start_rings tx_sr rx_sr d =
    (ethdma_rxsgcyclic rx_sr mtus_buffer xtemac_mtu
      (ethdma_txsgnormal tx_sr mtus_buffer xtemac_mtu d).1).1

-- `_ethdma_trxstop` and `_ethdma_trxreset`
unfoldable pub ethdma_trxstop : Dma → Dma
ethdma_trxstop d = sgdma_engstop xdma2_mm2s d

unfoldable pub ethdma_trxreset : Dma → Dma
ethdma_trxreset d = sgdma_engreset xdma2_mm2s d

-- `_xtemac_recover`
unfoldable pub recover : (tx_sr rx_sr : ℕ) (status speed : Option ℕ) (stack : Phylink) → Mac → Mac
recover tx_sr rx_sr status speed stack s0 =
    let stopped = trx_disable s0 in
    let s = trx_reset (record stopped { dma = ethdma_trxreset (ethdma_trxstop stopped.dma) }) in
    trx_enable status speed stack (record s { dma = start_rings tx_sr rx_sr s.dma })

-- XTEMAC_DEF_MACADDR
abbrev pub def_macaddr : List ℕ
def_macaddr = 0x02 ∷ 0x1A ∷ 0x11 ∷ 0x00 ∷ 0x7C ∷ 0x55 ∷ []

-- `_xtemac_start`, behind the start of the PHY.
unfoldable pub start_mac : (tx_sr rx_sr : ℕ) → Mac → Mac
start_mac tx_sr rx_sr s0 =
    let s = set_mac def_macaddr (trx_reset s0) in record s { dma = start_rings tx_sr rx_sr s.dma }

-- `_xtemac_start`
unfoldable pub xtemac_start :
    (ready_reset ready_bmcr ready_imr : Bool)
    → List (Option ℕ)
    → (tx_sr rx_sr : ℕ) → Mac
    → Option Mac
xtemac_start ready_reset ready_bmcr ready_imr rs tx_sr rx_sr s =
    elim (xtemac_phy ready_reset ready_bmcr ready_imr rs s.phy) [
      | none ↦ none
      | some p ↦ some (start_mac tx_sr rx_sr (record s { phy = p }))
    ]
