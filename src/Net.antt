-- ===== src/Net.antt =====
-- The Ethernet interface of the MicroBlaze target: src/arch/mb_le/sys/xtemac.c and xtemac_phy.c,
-- src/arch/mb_le/netdev.c and src/arch/mb_le/services/eth_service.c.
pub mod Mdio
pub mod Phy
pub mod Mac
pub mod Lwip
pub mod Netif
pub mod Service
pub mod Shell
mod Tests
