-- ===== src/Net/Mdio.antt =====
-- src/arch/mb_le/sys/xtemac_phy.c: the words of the MDIO interface and of the registers of the PHY,
-- without their reserved bits.
pub mod Laws
use rpv_platforms_evt_driven.Base.{ℕ, ◌+◌, ◌*◌, ◌%◌, ◌^◌, Bool, true, false}
use rpv_platforms_evt_driven.Base.Bits.{to_bit, bit_at, field}

-- `phy_bmcr_t`
pub record Bmcr : Type 0 where
  pub duplex_mode : Bool
  pub restart_auto_neg : Bool
  pub isolate : Bool
  pub power_down : Bool
  pub autoneg_enable : Bool
  pub speed_select : Bool
  pub loopback : Bool
  pub reset : Bool

abbrev pub no_bmcr : Bmcr
no_bmcr = record {
  duplex_mode = false;
  restart_auto_neg = false;
  isolate = false;
  power_down = false;
  autoneg_enable = false;
  speed_select = false;
  loopback = false;
  reset = false;
}

abbrev pub bmcr_reg : Bmcr → ℕ
bmcr_reg c =
    to_bit c.duplex_mode * 2 ^ 8
    + to_bit c.restart_auto_neg * 2 ^ 9
    + to_bit c.isolate * 2 ^ 10
    + to_bit c.power_down * 2 ^ 11
    + to_bit c.autoneg_enable * 2 ^ 12
    + to_bit c.speed_select * 2 ^ 13
    + to_bit c.loopback * 2 ^ 14
    + to_bit c.reset * 2 ^ 15

abbrev pub bmcr_of : ℕ → Bmcr
bmcr_of reg = record {
  duplex_mode = bit_at reg 8;
  restart_auto_neg = bit_at reg 9;
  isolate = bit_at reg 10;
  power_down = bit_at reg 11;
  autoneg_enable = bit_at reg 12;
  speed_select = bit_at reg 13;
  loopback = bit_at reg 14;
  reset = bit_at reg 15;
}

-- `phy_bmsr_t`
pub record Bmsr : Type 0 where
  pub ext_avail : Bool
  pub jabber_detect : Bool
  pub link_satus : Bool
  pub autoneg_avail : Bool
  pub remote_fault : Bool
  pub autoneg_cmplt : Bool
  pub ext_status : Bool
  pub t2_half_duplex : Bool
  pub t2_full_duplex : Bool
  pub t10_half_duplex : Bool
  pub t10_full_duplex : Bool
  pub tx_half_duplex : Bool
  pub tx_full_duplex : Bool
  pub t4_ability : Bool

abbrev pub bmsr_of : ℕ → Bmsr
bmsr_of reg = record {
  ext_avail = bit_at reg 0;
  jabber_detect = bit_at reg 1;
  link_satus = bit_at reg 2;
  autoneg_avail = bit_at reg 3;
  remote_fault = bit_at reg 4;
  autoneg_cmplt = bit_at reg 5;
  ext_status = bit_at reg 8;
  t2_half_duplex = bit_at reg 9;
  t2_full_duplex = bit_at reg 10;
  t10_half_duplex = bit_at reg 11;
  t10_full_duplex = bit_at reg 12;
  tx_half_duplex = bit_at reg 13;
  tx_full_duplex = bit_at reg 14;
  t4_ability = bit_at reg 15;
}

-- The seven sources of the interrupt of the PHY: `lan8720a_isr_t` and `lan8720a_imr_t` have the same
-- bits.
pub record PhySources : Type 0 where
  pub autoneg_page_rx : Bool
  pub par_detect_fault : Bool
  pub autoneg_lp_ack : Bool
  pub linkdown : Bool
  pub remote_fault : Bool
  pub autoneg_cmplt : Bool
  pub energyon : Bool

abbrev pub no_sources : PhySources
no_sources = record {
  autoneg_page_rx = false;
  par_detect_fault = false;
  autoneg_lp_ack = false;
  linkdown = false;
  remote_fault = false;
  autoneg_cmplt = false;
  energyon = false;
}

abbrev pub isr_of : ℕ → PhySources
isr_of reg = record {
  autoneg_page_rx = bit_at reg 1;
  par_detect_fault = bit_at reg 2;
  autoneg_lp_ack = bit_at reg 3;
  linkdown = bit_at reg 4;
  remote_fault = bit_at reg 5;
  autoneg_cmplt = bit_at reg 6;
  energyon = bit_at reg 7;
}

abbrev pub imr_reg : PhySources → ℕ
imr_reg s =
    to_bit s.autoneg_page_rx * 2 ^ 1
    + to_bit s.par_detect_fault * 2 ^ 2
    + to_bit s.autoneg_lp_ack * 2 ^ 3
    + to_bit s.linkdown * 2 ^ 4
    + to_bit s.remote_fault * 2 ^ 5
    + to_bit s.autoneg_cmplt * 2 ^ 6
    + to_bit s.energyon * 2 ^ 7

-- `lan8720a_scsr_t`
pub record Scsr : Type 0 where
  pub hcd_speed : ℕ
  pub autoneg_done : Bool

abbrev pub scsr_of : ℕ → Scsr
scsr_of reg = record { hcd_speed = field reg 2 3; autoneg_done = bit_at reg 15 }

-- `xtemac_mdio_setup_t`
abbrev pub mdio_setup : (clock_divide : ℕ) (mdio_enable : Bool) → ℕ
mdio_setup clock_divide mdio_enable = clock_divide % 2 ^ 6 + to_bit mdio_enable * 2 ^ 6

-- `xtemac_mdio_control_t`
pub record MdioControl : Type 0 where
  pub initiate : Bool
  pub op : ℕ
  pub phy_reg_addr : ℕ
  pub phy_addr : ℕ

abbrev pub mdio_control_reg : MdioControl → ℕ
mdio_control_reg c =
    to_bit c.initiate * 2 ^ 11
    + c.op % 2 ^ 2 * 2 ^ 14
    + c.phy_reg_addr % 2 ^ 5 * 2 ^ 16
    + c.phy_addr % 2 ^ 5 * 2 ^ 24
