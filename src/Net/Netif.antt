-- ===== src/Net/Netif.antt =====
-- src/arch/mb_le/netdev.c: the interface that is registered with lwIP.
pub mod Mtu
use Prim.Native.Nat.{bit_or}
use rpv_platforms_evt_driven.Base.{ℕ, ◌*◌, ◌+◌, List, [], ◌∷◌, ◌++◌, drop, length}
use rpv_platforms_evt_driven.Dma.State.{Dma}
use rpv_platforms_evt_driven.Net.Mac.{Mac, xtemac_mtu, mac_addrlen, xtemac_mac}
use rpv_platforms_evt_driven.Net.Service.{ErrT, err_ok}

-- The functions that the interface names.
pub data NetifHook : Type 0 where
  no_hook etharp_output lwip_eth_output ethernet_input : NetifHook

-- The members of `struct netif` that the code sets; the name up to its NUL.
pub record Netif : Type 0 where
  pub name : List ℕ
  pub hwaddr_len : ℕ
  pub hwaddr : List ℕ
  pub mtu : ℕ
  pub flags : ℕ
  pub output : NetifHook
  pub linkoutput : NetifHook

-- What the code calls of lwIP when it starts, and its flags. `netif_add` is given the function that
-- sets the interface up.
pub record NetifCalls (Stack : Type 0) : Type 0 where
  pub flag_broadcast : ℕ
  pub flag_etharp : ℕ
  pub flag_igmp : ℕ
  pub lwip_init : Stack → Stack
  pub netif_add :
      (ipaddr netmask gw : ℕ) (init : Netif → ErrT × Netif) (input : NetifHook)
      → Netif
      → Stack
      → Netif × Stack
  pub netif_set_default : Netif → Stack → Stack
  pub netif_set_up : Netif → Stack → Dma → Stack × Dma

module _ {Stack : Type 0} (nc : NetifCalls Stack) where
  -- `lwip_ethifInit`
  unfoldable pub ethif_init : Mac → Netif → ErrT × Netif
  ethif_init mac netif = (
    err_ok,
    record {
      name = b'e' ∷ b'0' ∷ [];
      hwaddr_len = mac_addrlen;
      hwaddr = xtemac_mac netif.hwaddr mac_addrlen mac;
      mtu = xtemac_mtu;
      flags = bit_or netif.flags (bit_or (bit_or nc.flag_broadcast nc.flag_etharp) nc.flag_igmp);
      output = etharp_output;
      linkoutput = lwip_eth_output;
    },
  )

  -- IP4_ADDR of four zeros
  abbrev pub any_address : ℕ
  any_address = 0

  -- `_netdev_if`
  unfoldable pub netdev_if : Netif → Mac → Stack → Netif × Stack × Mac
  netdev_if ethif mac s0 =
      let (ethif', s1) =
        nc.netif_add any_address any_address any_address (ethif_init mac) ethernet_input ethif
          (nc.lwip_init s0) in
      let (s2, dma) = nc.netif_set_up ethif' (nc.netif_set_default ethif' s1) mac.dma in
      (ethif', s2, record mac { dma = dma })
