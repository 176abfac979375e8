-- ===== src/Net/Lwip.antt =====
-- What netdev.c and eth_service.c call of lwIP, which is not part of the repository. lwIP answers by
-- frames of its own, which it hands to the driver while it handles a call.
use rpv_platforms_evt_driven.Base.{ℕ, Bool, List}
use rpv_platforms_evt_driven.Dma.State.{Dma}

pub record Lwip : Type 1 where
  -- The state of the stack, its interfaces and its buffers.
  pub Stack : Type 0
  pub has_netif : Stack → Bool
  pub netif_is_up : Stack → Bool
  pub netif_is_link_up : Stack → Bool
  pub netif_set_link_up : Stack → Dma → Stack × Dma
  pub netif_set_link_down : Stack → Dma → Stack × Dma
  -- `pbuf_alloc`: is there a buffer of that length?
  pub pbuf_alloc : (len : ℕ) → Stack → Bool × Stack
  -- `pbuf_take` and `netif -> input`: was the packet taken?
  pub input : List ℕ → Stack → Dma → Bool × Stack × Dma
  pub pbuf_free : Stack → Stack
  pub sys_check_timeouts : Stack → Dma → Stack × Dma
  pub dhcp_supplied_address : Stack → Bool
  pub netif_dhcp_data : Stack → Bool
  pub dhcp_start : Stack → Dma → Stack × Dma
