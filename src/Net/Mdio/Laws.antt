-- ===== src/Net/Mdio/Laws.antt =====
-- No two fields of a word overlap.
use rpv_platforms_evt_driven.Base.{◌%◌, ◌^◌, ◌≡◌}
use rpv_platforms_evt_driven.Base.Bits.{bit_at, field, bit_at_of, bits}
use rpv_platforms_evt_driven.Net.Mdio.{
  Bmcr, bmcr_reg, bmcr_of, PhySources, isr_of, imr_reg, MdioControl, mdio_control_reg,
}

bmcr_of-bmcr_reg : (c : Bmcr) → bmcr_of (bmcr_reg c) ≡ c
bmcr_of-bmcr_reg c = λ i. record {
  duplex_mode = bit_at_of (bmcr_reg c) 8 c.duplex_mode (omega bits) i;
  restart_auto_neg = bit_at_of (bmcr_reg c) 9 c.restart_auto_neg (omega bits) i;
  isolate = bit_at_of (bmcr_reg c) 10 c.isolate (omega bits) i;
  power_down = bit_at_of (bmcr_reg c) 11 c.power_down (omega bits) i;
  autoneg_enable = bit_at_of (bmcr_reg c) 12 c.autoneg_enable (omega bits) i;
  speed_select = bit_at_of (bmcr_reg c) 13 c.speed_select (omega bits) i;
  loopback = bit_at_of (bmcr_reg c) 14 c.loopback (omega bits) i;
  reset = bit_at_of (bmcr_reg c) 15 c.reset (omega bits) i;
}

-- A source that the mask word enables is the one whose status bit is read.
isr_of-imr_reg : (s : PhySources) → isr_of (imr_reg s) ≡ s
isr_of-imr_reg s = λ i. record {
  autoneg_page_rx = bit_at_of (imr_reg s) 1 s.autoneg_page_rx (omega bits) i;
  par_detect_fault = bit_at_of (imr_reg s) 2 s.par_detect_fault (omega bits) i;
  autoneg_lp_ack = bit_at_of (imr_reg s) 3 s.autoneg_lp_ack (omega bits) i;
  linkdown = bit_at_of (imr_reg s) 4 s.linkdown (omega bits) i;
  remote_fault = bit_at_of (imr_reg s) 5 s.remote_fault (omega bits) i;
  autoneg_cmplt = bit_at_of (imr_reg s) 6 s.autoneg_cmplt (omega bits) i;
  energyon = bit_at_of (imr_reg s) 7 s.energyon (omega bits) i;
}

-- The fields of a control word are where the interface expects them.
mdio_control_reg-fields :
    (c : MdioControl)
    → let w = mdio_control_reg c in
      (bit_at w 11 ≡ c.initiate)
      × (field w 14 2 ≡ c.op % 2 ^ 2)
      × (field w 16 5 ≡ c.phy_reg_addr % 2 ^ 5)
      × (field w 24 5 ≡ c.phy_addr % 2 ^ 5)
mdio_control_reg-fields c =
    (bit_at_of (mdio_control_reg c) 11 c.initiate (omega bits), omega bits, omega bits, omega bits)
