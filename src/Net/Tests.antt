-- ===== src/Net/Tests.antt =====
-- A stack that counts, a driver with a packet, and uses of the theorems on the Ethernet interface.
mod Frames
use rpv_platforms_evt_driven.Base.{
  ℕ, ◌+◌, ◌-◌, ◌%◌, ◌^◌, ◌<◌, ◌≡◌, refl, arith, ltb, leb, if◌then◌else◌, false, true, some, List,
  [], pos, ◌∷◌, ◌++◌, take, replicate,
}
use rpv_platforms_evt_driven.Dma.Bd.{ring_bd}
use rpv_platforms_evt_driven.Dma.Registers.{status_of}
use rpv_platforms_evt_driven.Dma.State.{Dma, s2mm_ring, s2mm_buffer, copy_out}
use rpv_platforms_evt_driven.Dma.Engine.{sgdma_sgallowed}
use rpv_platforms_evt_driven.Dma.Fixture.{fresh, sr_halted, sr_ioc}
use rpv_platforms_evt_driven.Dma.Rx.Queue.{waiting}
use rpv_platforms_evt_driven.Dma.Tx.Slots.{queued}
use rpv_platforms_evt_driven.Net.Phy.{Phylink, speed_100mbps, link_full_duplex, phyid, read_phy_reg}
use rpv_platforms_evt_driven.Net.Service.BusError.{NoBusError, service-recovers}
use rpv_platforms_evt_driven.Net.Netif.{Netif, NetifCalls, no_hook, netdev_if, ethif_init}
use rpv_platforms_evt_driven.Net.Netif.Mtu.{full_mtu-refused}
use rpv_platforms_evt_driven.Dma.Tx.{ethdma_txsgflush}
use rpv_platforms_evt_driven.Dma.Rx.{eth_rxqcount}
use rpv_platforms_evt_driven.Net.Mac.{
  Mac, xtemac_mtu, def_macaddr, start_mac, trx_reset, set_mac, xtemac_mac, start_rings, put_bit,
  await_low, tx_reset, rx_reset, receiver_enable, transmit_enable,
}
use rpv_platforms_evt_driven.Net.Mac.Address.{xtemac_mac-set_mac}
use rpv_platforms_evt_driven.Net.Mac.Transceiver.{IsFresh, start_rings-IsFresh}
use rpv_platforms_evt_driven.Net.Lwip.{Lwip}
use rpv_platforms_evt_driven.Net.Service.{
  Eth, traffic, input_loop, block_signals, unblock_signals, dma_error, new_input, eth_input, err_ok,
  err_if, eth_output, eth_linkup, eth_linkdown, link_event, eth_service,
}
use rpv_platforms_evt_driven.Net.Shell.{
  mac_address, link_is_up, speed_line, duplex_line, ethmac_m, ethlink_m, ethphy_m, phy_id,
}
use rpv_platforms_evt_driven.Net.Service.Drain.{
  IsReceived, KeepsRx, Delivered, eth_input-Delivered, SameRx-refl,
}
use rpv_platforms_evt_driven.Net.Service.Frames.{AllFit, none_more_fit, fit, receive_all}
use rpv_platforms_evt_driven.Net.Service.Receive.{eth_input-receive_all}
use rpv_platforms_evt_driven.Net.Service.Output.{AllShort, none_more, short, eth_output_lem}
use rpv_platforms_evt_driven.Net.Service.Events.{
  reads, Follows, link_event-Follows, link_event-lost,
}

-- A stack that counts its packets and has two buffers.
abbrev pub counter : Lwip
counter = record {
  Stack = ℕ;
  has_netif = λ s. true;
  netif_is_up = λ s. true;
  netif_is_link_up = λ s. true;
  netif_set_link_up = λ s d. (s + 100, d);
  netif_set_link_down = λ s d. (s + 200, d);
  pbuf_alloc = λ len s. (ltb s 2, s);
  input = λ packet s d. (true, s + 1, d);
  pbuf_free = λ s. s;
  sys_check_timeouts = λ s d. (s, d);
  dhcp_supplied_address = λ s. false;
  netif_dhcp_data = λ s. false;
  dhcp_start = λ s d. (s, d);
}

pub counter_keeps : KeepsRx counter
counter_keeps = record { input-SameRx = λ packet s d. SameRx-refl d }

-- One packet of three bytes waits.
abbrev one_packet : Dma
one_packet = record fresh {
  rxhead = 1;
  bds = λ a. record (ring_bd 0 s2mm_buffer xtemac_mtu) { cmplt = true; trans_len = 3 };
  bytes = λ x. 7;
}

one_packet-IsReceived : (k : ℕ) → k < 1 → IsReceived (one_packet.bds s2mm_ring)
one_packet-IsReceived k h = record {
  complete = refl;
  fits = omega arith;
  above = omega arith;
  below = omega arith;
}

eth_input-Delivered_example :
    Delivered counter
      ((7 ∷ 7 ∷ 7 ∷ []) ∷ [])
      (new_input counter 0 one_packet)
      (eth_input counter 0 one_packet)
    × (waiting (eth_input counter 0 one_packet).dma ≡ 0)
unfolding copy_out
eth_input-Delivered_example =
    eth_input-Delivered counter counter_keeps 0 one_packet refl refl refl
      (record { head_in = omega arith; tail_in = omega arith }) one_packet-IsReceived

abbrev pub rings : Dma
rings = start_rings sr_halted sr_halted fresh

pub rings-IsFresh : IsFresh rings
unfolding sgdma_sgallowed status_of
rings-IsFresh = start_rings-IsFresh sr_halted sr_halted fresh refl refl

two_short : AllShort xtemac_mtu ((1 ∷ 2 ∷ []) ∷ (3 ∷ []) ∷ [])
two_short = short (omega arith) (short (omega arith) none_more)

eth_output_lem_example :
    let (err, t) = eth_output ((1 ∷ 2 ∷ []) ∷ (3 ∷ []) ∷ []) rings in
    let room = 10 - (rings.txtail + 1) in
    (err ≡ (if leb 2 room then err_ok else err_if))
    × (queued t ≡ queued rings ++ take room ((1 ∷ 2 ∷ []) ∷ (3 ∷ []) ∷ []))
eth_output_lem_example =
    eth_output_lem ((1 ∷ 2 ∷ []) ∷ (3 ∷ []) ∷ []) rings-IsFresh.send_ring
      (omega (arith, rings-IsFresh.unlocked)) (omega arith) two_short

abbrev linked : Phylink
linked = record { speed = speed_100mbps; link = link_full_duplex }

abbrev mac : Mac
mac = record {
  uaw0 = 0;
  uaw1 = 0;
  regs = [];
  phy = record { link_sig = true; mdio = [] };
  dma = fresh;
}

-- The command prints the address, the words of the PHY, and the link.
mac_start : (ethmac_m (start_mac sr_halted sr_halted mac)).1 ≡ mac_address def_macaddr ∷ []
unfolding ethmac_m start_mac set_mac xtemac_mac trx_reset
mac_start = refl

link_line :
    ethlink_m eth_linkup linked
    ≡ (pos 0, link_is_up ∷ speed_line speed_100mbps ∷ duplex_line link_full_duplex ∷ [])
unfolding ethlink_m
link_line = refl

abbrev eth : Eth counter
eth = record { stack = 0; mac = mac; lk = linked; link_reg = eth_linkdown; notes = [] }

-- The status word of a negotiated link, and the speed word for 100 Mbps full duplex.
link_event-Follows_example : Follows counter true linked linked eth (
    link_event counter
      (reads counter (some 36) 24 linked)
      (reads counter (some 36) 24 linked)
      []
      eth)
link_event-Follows_example = link_event-Follows counter (some 36) 24 linked linked eth

link_event-lost_example :
    let t =
      link_event counter
        (reads counter (some 36) 24 linked)
        (reads counter (some 0) 24 linked)
        ((some 16, 0) ∷ [])
        eth in
    (t.link_reg ≡ eth_linkup) × (t.mac.regs ≡ []) × (t.stack ≡ 100) × (t.mac.phy.link_sig ≡ false)
link_event-lost_example =
    link_event-lost counter (some 36) (some 0) 24 24 linked linked ((some 16, 0) ∷ []) eth refl refl

xtemac_mac-set_mac_example :
    xtemac_mac
      (0 ∷ 0 ∷ 0 ∷ 0 ∷ 0 ∷ 0 ∷ 9 ∷ [])
      6
      (set_mac (0x02 ∷ 0x1A ∷ 0x11 ∷ 0x00 ∷ 0x7C ∷ 0x55 ∷ []) mac)
    ≡ 0x02 ∷ 0x1A ∷ 0x11 ∷ 0x00 ∷ 0x7C ∷ 0x55 ∷ 9 ∷ []
xtemac_mac-set_mac_example =
    xtemac_mac-set_mac 0x02 0x1A 0x11 0x00 0x7C 0x55 (0 ∷ 0 ∷ 0 ∷ 0 ∷ 0 ∷ 0 ∷ 9 ∷ []) 6 mac
      (omega arith) (omega arith) (omega arith) (omega arith) (omega arith) (omega arith)

abbrev eth_waiting : Eth counter
eth_waiting = record eth { mac = record mac { dma = one_packet } }

phy_line : (ethphy_m true (some 0x0007) (some 0xC0F1) mac.phy).1 ≡ phy_id 0x0007 0xC0F1 ∷ []
unfolding ethphy_m phyid read_phy_reg
phy_line = refl

-- Flags and calls of the same stack.
abbrev counter_calls : NetifCalls ℕ
counter_calls = record {
  flag_broadcast = 2;
  flag_etharp = 8;
  flag_igmp = 32;
  lwip_init = λ s. s;
  netif_add = λ ip mask gw init hook netif s. ((init netif).1, s + 1);
  netif_set_default = λ netif s. s;
  netif_set_up = λ netif s d. (s, d);
}

abbrev unset : Netif
unset = record {
  name = [];
  hwaddr_len = 0;
  hwaddr = replicate 6 0;
  mtu = 0;
  flags = 0;
  output = no_hook;
  linkoutput = no_hook;
}

-- The interface has the address that the start sets.
started_address :
    (netdev_if counter_calls unset (start_mac sr_halted sr_halted mac) 0).0.hwaddr ≡ def_macaddr
unfolding netdev_if ethif_init start_mac set_mac xtemac_mac trx_reset
started_address = refl

full_mtu-refused_example :
    let (err, t) = eth_output (replicate 1550 0 ∷ []) rings in
    (err ≡ err_if) × (queued t ≡ queued rings)
unfolding ethif_init
full_mtu-refused_example =
    full_mtu-refused counter_calls mac unset (replicate 1550 0) rings-IsFresh.send_ring refl

abbrev failed : Eth counter
failed = record eth {
  mac = record mac {
    phy = record { link_sig = false; mdio = [] };
    dma = record fresh { ethdma_txbuserr = true };
  };
}

service-recovers_example :
    let r = reads counter (some 0) 24 linked in
    let t = eth_service counter true r r r [] sr_halted sr_halted failed in
    IsFresh t.mac.dma
    × NoBusError t.mac.dma
    × (t.mac.regs
        ≡ await_low tx_reset
          ∷ put_bit tx_reset true
          ∷ await_low rx_reset
          ∷ put_bit rx_reset true
          ∷ put_bit receiver_enable false
          ∷ put_bit transmit_enable false
          ∷ [])
    × (t.notes ≡ unblock_signals ∷ dma_error ∷ block_signals ∷ [])
    × (t.mac.uaw0 ≡ 0)
    × (t.mac.uaw1 ≡ 0)
    × (t.link_reg ≡ eth_linkdown)
    × (t.stack ≡ 0)
unfolding traffic eth_input input_loop ethdma_txsgflush eth_rxqcount sgdma_sgallowed status_of
service-recovers_example =
    let r = reads counter (some 0) 24 linked in
    service-recovers counter r r [] sr_halted sr_halted (some 0) 24 linked failed refl refl refl
      refl
