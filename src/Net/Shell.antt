-- ===== src/Net/Shell.antt =====
-- src/arch/mb_le/services/eth_service.c: the shell commands on the Ethernet interface. What a
-- command prints is a list of lines.
use rpv_platforms_evt_driven.Base.{
  ℕ, ◌/◌, ◌%◌, ◌^◌, ◌==◌, if◌then◌else◌, Bool, not, Option, List, [], ◌∷◌, replicate, ℤ, pos,
  negsuc,
}
use rpv_platforms_evt_driven.Dma.State.{Dma}
use rpv_platforms_evt_driven.Dma.Counters.{
  eth_rxcount, eth_txcount, eth_lostcount, eth_rxqhead, eth_rxqtail, eth_txqhead, eth_txqtail,
}
use rpv_platforms_evt_driven.Net.Phy.{Phy, PhySpeed, PhyDuplex, Phylink, phyid}
use rpv_platforms_evt_driven.Net.Mac.{Mac, xtemac_mac}
use rpv_platforms_evt_driven.Net.Lwip.{Lwip}
use rpv_platforms_evt_driven.Net.Service.{LinkReg, eth_linkup, eth_linkdown}

pub data Line : Type 0 where
  no_netif netif_link_down dhcp_in_progress dhcp_acquire addresses : Line
  mac_address : List ℕ → Line
  no_frames : Line
  rx_queue tx_queue : (head tail : ℕ) → Line
  packet_counts : (received transmitted lost : ℕ) → Line
  link_is_up no_link : Line
  speed_line : PhySpeed → Line
  duplex_line : PhyDuplex → Line
  no_phy : Line
  phy_id : (hi low : ℕ) → Line

-- `dhcp_m`
unfoldable pub dhcp_m : (lw : Lwip) → lw.Stack → Dma → ℤ × List Line × lw.Stack × Dma
dhcp_m lw s d =
    if not (lw.has_netif s)
    then (negsuc 0, no_netif ∷ [], s, d)
    else if not (lw.netif_is_link_up s)
    then (pos 0, netif_link_down ∷ [], s, d)
    else if lw.dhcp_supplied_address s
    then (pos 0, addresses ∷ [], s, d)
    else if lw.netif_dhcp_data s
    then (pos 0, dhcp_in_progress ∷ [], s, d)
    else let (s', d') = lw.dhcp_start s d in (pos 0, dhcp_acquire ∷ [], s', d')

-- `ethmac_m`
unfoldable pub ethmac_m : Mac → ℤ × List Line
ethmac_m s = (pos 0, mac_address (xtemac_mac (replicate 6 0) 6 s) ∷ [])

-- `ethlink_m`
unfoldable pub ethlink_m : LinkReg → Phylink → ℤ × List Line
ethlink_m eth_linkup lk = (pos 0, link_is_up ∷ speed_line lk.speed ∷ duplex_line lk.link ∷ [])
ethlink_m eth_linkdown lk = (pos 0, no_link ∷ [])

-- `ethphy_m`
unfoldable pub ethphy_m : (ready : Bool) (first second : Option ℕ) → Phy → ℤ × List Line × Phy
ethphy_m ready first second s =
    let (id, s') = phyid ready first second s in
    if id == 0
    then (negsuc 0, no_phy ∷ [], s')
    else (pos 0, phy_id (id / 2 ^ 16 % 2 ^ 16) (id % 2 ^ 16) ∷ [], s')

-- `ethstat_m`
unfoldable pub ethstat_m : Dma → ℤ × List Line
ethstat_m d = if eth_rxcount d == 0 then (pos 0, no_frames ∷ []) else (
  pos 0,
  rx_queue (eth_rxqhead d) (eth_rxqtail d)
      ∷ tx_queue (eth_txqhead d) (eth_txqtail d)
      ∷ packet_counts (eth_rxcount d) (eth_txcount d) (eth_lostcount d)
      ∷ [],
)
