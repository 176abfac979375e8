-- ===== src/Net/Phy.antt =====
-- src/arch/mb_le/sys/xtemac_phy.c: the PHY behind the MDIO registers. What a register read returns
-- is an argument: a word, or `none` when the interface is not ready and the code reads nothing.
pub mod Link
use rpv_platforms_evt_driven.Base.{
  ℕ, ◌+◌, ◌*◌, ◌%◌, ◌^◌, ◌==◌, if◌then◌else◌, Bool, true, false, not, ◌&&◌, ◌||◌, Option, none,
  some, List, [], ◌∷◌,
}
use rpv_platforms_evt_driven.Net.Mdio.{
  no_bmcr, bmcr_reg, bmcr_of, bmsr_of, no_sources, isr_of, imr_reg, scsr_of, mdio_setup,
  mdio_control_reg,
}

-- The register numbers.
abbrev pub bmcr : ℕ
bmcr = 0

abbrev pub bmsr : ℕ
bmsr = 1

abbrev pub id1 : ℕ
id1 = 2

abbrev pub id2 : ℕ
id2 = 3

abbrev pub lan8720a_isr : ℕ
lan8720a_isr = 29

abbrev pub lan8720a_imr : ℕ
lan8720a_imr = 30

abbrev pub lan8720a_scsr : ℕ
lan8720a_scsr = 31

-- XTEMAC_MDIO_WRITE, XTEMAC_MDIO_READ and XTEMAC_MDIO_PHY_ADDR
abbrev pub mdio_write : ℕ
mdio_write = 1

abbrev pub mdio_read : ℕ
mdio_read = 2

abbrev pub mdio_phy_addr : ℕ
mdio_phy_addr = 1

pub data PhySpeed : Type 0 where
  speed_10mbps speed_100mbps : PhySpeed

pub data PhyDuplex : Type 0 where
  link_half_duplex link_full_duplex : PhyDuplex

pub record Phylink : Type 0 where
  pub speed : PhySpeed
  pub link : PhyDuplex

-- What the code asks of the MDIO registers, the interrupt controller and the kernel. A wait is the
-- loop on the completion flag.
pub data MdioEffect : Type 0 where
  write_stp write_wdr write_cr : ℕ → MdioEffect
  clear_mdioc_irq await_mdioc_low await_mdioc_high : MdioEffect
  disable_irq enable_irq raise_sigint : MdioEffect

-- `link_sig`, and the effects, newest first.
pub record Phy : Type 0 where
  pub link_sig : Bool
  pub mdio : List MdioEffect

abbrev pub asks : Phy → List MdioEffect → Phy
asks s [] = s
asks s (e ∷ es) = asks (record s { mdio = e ∷ s.mdio }) es

-- `xtemac_mdio_control_t` of a transfer.
unfoldable pub mdio_control : (op addr : ℕ) → ℕ
mdio_control op addr =
    mdio_control_reg
      (record { initiate = true; op = op; phy_reg_addr = addr; phy_addr = mdio_phy_addr })

-- `read_phyReg`, with the variable that it writes to.
unfoldable pub read_phy_reg : (addr : ℕ) → Option ℕ → (regv : ℕ) → Phy → Bool × ℕ × Phy
read_phy_reg addr none regv s = (false, regv, s)
read_phy_reg addr (some rdata) regv s = (
  true,
  rdata % 2 ^ 16,
  asks s (
      clear_mdioc_irq
      ∷ await_mdioc_low
      ∷ write_cr (mdio_control mdio_read addr)
      ∷ await_mdioc_high
      ∷ []),
)

-- `write_phyReg`, with the ready bit that it reads.
unfoldable pub write_phy_reg : (ready : Bool) (addr regv : ℕ) → Phy → Bool × Phy
write_phy_reg false addr regv s = (false, s)
write_phy_reg true addr regv s = (
  true,
  asks s (
      clear_mdioc_irq
      ∷ await_mdioc_low
      ∷ write_wdr (regv % 2 ^ 16)
      ∷ write_cr (mdio_control mdio_write addr)
      ∷ await_mdioc_high
      ∷ []),
)

-- The loop of `_xtemac_phyReset`, over what the reads return one after the other; `none` if it
-- wants one more.
unfoldable pub reset_loop : List (Option ℕ) → (phy : ℕ) → Phy → Option Phy
reset_loop [] phy s = none
reset_loop (r ∷ rs) phy s =
    let (ok, phy', s') = read_phy_reg bmcr r phy s in
    let rest = reset_loop rs phy' s' in if (bmcr_of phy').reset then rest else some s'

-- `_xtemac_phyReset`
unfoldable pub phy_reset : (ready : Bool) → List (Option ℕ) → Phy → Option Phy
phy_reset ready rs s =
    let phy = bmcr_reg (record no_bmcr { reset = true }) in
    let (ok, s') = write_phy_reg ready bmcr phy s in reset_loop rs phy s'

-- `_xtemac_phy` behind the reset: negotiation is enabled, and its end and a lost link interrupt.
unfoldable pub phy_enable : (ready_bmcr ready_imr : Bool) → Phy → Phy
phy_enable ready_bmcr ready_imr s0 =
    let (ok, s) =
      write_phy_reg ready_bmcr bmcr (bmcr_reg (record no_bmcr { autoneg_enable = true })) s0 in
    (write_phy_reg ready_imr lan8720a_imr
      (imr_reg (record no_sources { autoneg_cmplt = true; linkdown = true }))
      (asks s (disable_irq ∷ enable_irq ∷ []))).1

-- `_xtemac_phy`
unfoldable pub xtemac_phy :
    (ready_reset ready_bmcr ready_imr : Bool) → List (Option ℕ) → Phy → Option Phy
xtemac_phy ready_reset ready_bmcr ready_imr rs s =
    let started = asks (record s { link_sig = false }) (write_stp (mdio_setup 0x14 true) ∷ []) in
    elim (phy_reset ready_reset rs started) [
      | none ↦ none
      | some s' ↦ some (phy_enable ready_bmcr ready_imr s')
    ]

-- The `switch` of `_xtemac_phylink`, on `hcd_speed`.
unfoldable pub set_link : (hcd_speed : ℕ) → Phylink → Phylink
set_link hcd_speed lk =
    if (hcd_speed == 5) || (hcd_speed == 6)
    then record {
      link = link_full_duplex;
      speed = if hcd_speed == 5 then speed_10mbps else speed_100mbps;
    }
    else if (hcd_speed == 1) || (hcd_speed == 2)
    then record {
      link = link_half_duplex;
      speed = if hcd_speed == 1 then speed_10mbps else speed_100mbps;
    }
    else lk

-- `_xtemac_phylink`, with what the reads of the status and the speed register return.
unfoldable pub phylink :
    (status speed : Option ℕ) → Option Phylink → Phy → Bool × Option Phylink × Phy
phylink status speed none s = (false, none, s)
phylink status speed (some lk) s0 =
    let (ok, phy, s) = read_phy_reg bmsr status 0 (record s0 { link_sig = false }) in
    let (ok', phy', s') = read_phy_reg lan8720a_scsr speed phy s in
    if (bmsr_of phy).link_satus && (bmsr_of phy).autoneg_cmplt
    then (true, some (set_link (scsr_of phy').hcd_speed lk), s')
    else (false, some lk, s)

-- `_xtemac_phyid`, with the ready bit and what the two reads return.
unfoldable pub phyid : (ready : Bool) (first second : Option ℕ) → Phy → ℕ × Phy
phyid false first second s = (0, s)
phyid true first second s0 =
    let (id1_ok, phy_id1, s1) = read_phy_reg id1 first 0 s0 in
    let (id2_ok, phy_id2, s2) = read_phy_reg id2 second 0 s1 in
    ((if id1_ok && id2_ok then phy_id1 * 2 ^ 16 + phy_id2 else 0), s2)

-- `on_phyIRQ`, with what the read of the interrupt register returns, and what its uninitialised
-- variable holds if that is not done.
unfoldable pub on_phy_irq : (isr : Option ℕ) (stack : ℕ) → Phy → Phy
on_phy_irq isr stack s0 =
    let (ok, phy, s) = read_phy_reg lan8720a_isr isr stack s0 in
    asks (record s { link_sig = (isr_of phy).linkdown || (isr_of phy).autoneg_cmplt })
      (raise_sigint ∷ [])
