-- ===== src/Net/Phy/Link.antt =====
-- What the PHY reports of the link, and its reset.
use rpv_platforms_evt_driven.Base.{
  ℕ, ◌%◌, ◌^◌, ◌≡◌, refl, arith, ◌==◌, if◌then◌else◌, if-both, Bool, false, ◌&&◌, ◌||◌, Option,
  none, some, List, [], ◌∷◌, ◌++◌,
}
use rpv_platforms_evt_driven.Base.Bits.{bit_at, field}
use rpv_platforms_evt_driven.Net.Phy.{
  bmcr, Phy, Phylink, speed_10mbps, speed_100mbps, link_half_duplex, link_full_duplex, read_phy_reg,
  reset_loop, phy_reset, set_link, phylink,
}

-- The speed indication of the LAN8720A, bit by bit: bits 2 and 3 give the speed, bit 4 the duplex
-- mode.
abbrev pub indicated : (scsr : ℕ) → Phylink → Phylink
indicated scsr lk =
    if (field scsr 2 2 == 1) || (field scsr 2 2 == 2)
    then record {
      speed = if field scsr 2 2 == 1 then speed_10mbps else speed_100mbps;
      link = if bit_at scsr 4 then link_full_duplex else link_half_duplex;
    }
    else lk

-- The status register says that the link is up and negotiated.
abbrev pub is_up : Option ℕ → Bool
is_up none = false
is_up (some w) = bit_at w 2 && bit_at w 5

set_link_lem : (w : ℕ) (lk : Phylink) → set_link (field (w % 2 ^ 16) 2 3) lk ≡ indicated w lk
unfolding set_link
set_link_lem w lk = ground arith

-- The link is reported up exactly if the status register was read with its bits 2 and 5 set, and the
-- signal for a change of the link is taken. If the link is up and the speed register was read, speed
-- and duplex mode are those that its bits indicate, and as before if they indicate none; if the link is
-- down they are as before.
pub phylink_lem :
    (status : Option ℕ) (scsr : ℕ) (lk : Phylink) (s : Phy)
    → let (up, lk', s') = phylink status (some scsr) (some lk) s in
      (up ≡ is_up status)
      × (s'.link_sig ≡ false)
      × (lk' ≡ some (if is_up status then indicated scsr lk else lk))
unfolding phylink read_phy_reg
phylink_lem none scsr lk s = (refl, refl, refl)
phylink_lem (some w) scsr lk s = ground (arith, set_link_lem scsr lk)

reset_loop-ends :
    (before : List (Option ℕ)) (w : ℕ) (behind : List (Option ℕ)) (phy : ℕ) (s : Phy)
    → bit_at w 15 ≡ false
    → (t : Phy) × (reset_loop (before ++ (some w ∷ behind)) phy s ≡ some t)
unfolding reset_loop read_phy_reg
reset_loop-ends [] w behind phy s h =
    let low : bit_at (w % 2 ^ 16) 15 ≡ false = ground (arith, h) in rw low (_, refl)
reset_loop-ends (r ∷ rs) w behind phy s h =
    let (ok, phy', s') = read_phy_reg bmcr r phy s in
    if-both (λ o. (t : Phy) × (o ≡ some t)) (bit_at phy' 15) (reset_loop-ends rs w behind phy' s' h)
      (s', refl)

-- The reset of the PHY ends, whether its command could be written or not, when one of the reads
-- returns a control word with the reset bit clear, whatever the reads before that return.
pub phy_reset-ends :
    (ready : Bool) (before : List (Option ℕ)) (w : ℕ) (behind : List (Option ℕ)) (s : Phy)
    → bit_at w 15 ≡ false
    → (t : Phy) × (phy_reset ready (before ++ (some w ∷ behind)) s ≡ some t)
unfolding phy_reset
phy_reset-ends ready before w behind s h = reset_loop-ends before w behind (2 ^ 15) _ h
