-- ===== src/Lib.antt =====
-- A verification library of the event-driven OS for three targets: MicroBlaze (src/arch/mb_le),
-- AVR (src/arch/mc_avr) and x86_64 (src/arch/x86_64).
--
-- THE PROGRAM. Drivers and services run beside a kernel that is a submodule. An interrupt handler
-- fills a queue that it shares with a driver's read function; the kernel calls the services in
-- turn, and a service empties such a queue and publishes events or passes data on. The MicroBlaze
-- target moves Ethernet frames, sound and SD card sectors with DMA engines over rings of
-- descriptors that it flushes from its cache. FatFs, a library outside the repository, calls the
-- disk functions of src/fatfs/diskio.c, and src/fatfs/fat.c calls FatFs for a shell.
--
-- THE FILES.
-- Base: Boolean tests and the conditional of C, arrays as lists, ring indices, bit fields,
--   counting loops, and signed numbers.
-- Uart: src/arch/mb_le/sys/xuart.c and src/arch/mc_avr/sys/uart.c with their services. Ring is the
--   8-byte ring of both (`put_char` is the store of `onxUart0_irq` and of `uart_onRxCompleteISR`,
--   `read_char` is `_xuartlite_read`); Ring/Refine relates it to a queue; Xuart and Avr are the
--   two drivers, their Service modules the loops of `uart_service`; Xuart/Run has the
--   interleavings of interrupts and whole reads, Xuart/Race a read that an interrupt falls into;
--   the two Port modules have the start and the transmitter.
-- Dma: src/arch/mb_le/sys/xdma.c. Registers are the unions `xdmacr_t` and `xdmasr_t`, Bd the
--   descriptors and `xsgdma_ring`, Counters what the services read of it, State the static
--   variables, descriptors, I/O memory and the trace of register and cache operations, Engine the
--   start and stop of an engine, Rx and Tx the Ethernet rings (`_ethdma_*`, `onethdma_rxirq`,
--   `onethdma_txirq`), Sound the two halves of the sound buffer (`_sbdma_*`), Card the direct
--   transfers (`_sdcdma_*`).
-- Cga: src/arch/x86_64/print.c, each function under its name.
-- Keyb: src/arch/x86_64/keyb.c; `on_keyb_scan` is `_kernel_onKeybScan`, Tables has `Make` and
--   `Keys`, and Events says from these what a key publishes.
-- Std: src/arch/x86_64/std.c, `strtoul` (Hex) and `atol` (Decimal).
-- Fat: src/fatfs/fat.c. Interface is what it calls of FatFs, Table the open files, Times
--   `to_filDateTime`, Dir the directory entries and `fat_ls`.
-- Disk: Driver is the interface of a block driver; Ide (src/arch/x86_64/pata.c) implements it,
--   Storage has the functions of src/arch/mb_le/storage.c over Rsdcard
--   (src/arch/mb_le/sys/rsdcard.c), Diskio (src/fatfs/diskio.c) is its client, Info the texts on
--   the disks.
-- Timer: src/arch/mb_le/sys/xtimer.c; Wait is the command of
--   src/arch/mb_le/services/timer_service.c.
-- Player: src/arch/mb_le/services/sb_service.c. Service has a function for each case of
--   `sb_service`, Command is `sb_m`; Hear puts the service beside the sound engine, which plays
--   the two halves of the buffer in turn and raises its interrupt after each; Table follows the
--   table of open files up to the close, and Play is about the command and the service together.
-- Wheels: the shell command of src/arch/mc_avr/services/wheels_service.c; Port has the pins and
--   the SPI (src/arch/mc_avr/sys/gpio.c, src/arch/mc_avr/sys/spi.c), Select the command on them.
-- Net: the Ethernet interface. Phy is src/arch/mb_le/sys/xtemac_phy.c, Mdio the words of its
--   registers, Mac is src/arch/mb_le/sys/xtemac.c, Lwip what the glue calls of lwIP, Service has
--   `lwip_ethOutput` (`eth_output`) of src/arch/mb_le/netdev.c and `lwip_ethInput` (`eth_input`)
--   and `eth_service` of src/arch/mb_le/services/eth_service.c, Service/Frames, Service/Fill and
--   Service/Receive the way of frames from the DMA engine to lwIP, Shell the commands of that
--   file, Netif the interface that src/arch/mb_le/netdev.c registers.
-- Rtm: the reaction time, src/arch/mb_le/sys/rtmsure.c and
--   src/arch/mb_le/services/rtmsure_service.c.
-- Sec: src/arch/mb_le/services/sec_service.c; SecRt is what it calls of the security runtime, a
--   submodule, Store has the theorems on the secure store and the proof, Hash those on
--   `_sec_hash`, Run those on the states of the service.
-- Monitor: Temp is src/arch/mb_le/sys/tsensor.c and src/arch/mb_le/services/temp_service.c, Mem is
--   src/arch/mb_le/sys/rwmon32.c.
-- Con: the consoles behind one interface. Pc is src/arch/x86_64/console.c over Cga, Serial/Mb is
--   src/arch/mb_le/console.c and src/arch/mb_le/tty.c, Serial/Avr is src/arch/mc_avr/sys/tty.c,
--   Prompt has the three functions `_shell_prompt`.
-- Board: Intc is src/arch/mb_le/sys/xintc.c, Cache src/arch/mb_le/sys/xcache.c, Boot the start of
--   the drivers in src/arch/mb_le/entry.c with the interrupt lines that they take.
-- Modules named Tests hold runs on concrete data and uses of the theorems.
--
-- THE MODEL. Every function takes the state it changes and returns it. NULL, false and -1 are
-- `none`, `false` and `negsuc 0`. Numbers are natural numbers; where the source stores them in a
-- word, the remainder is written out. A register that is read is an argument of the function, one
-- that is written is an effect in the trace, as are the operations on the cache; a busy wait ends
-- when the hardware shows what it waits for. Engine writes to descriptors and buffers, and
-- interrupts, are steps of their own. FatFs, lwIP, the security runtime and the routines on the
-- IDE bus are records of functions that every theorem holds for.
--
-- BOUNDS. The service loops of Uart run on fuel of `ring_size`, 8: a ring holds seven bytes, so
-- one more round meets the empty ring, and the theorems on the services show that the result is
-- there. A call of `sb_service` runs on fuel for the calls of itself; Player/Total shows that four
-- are enough. `sec_service` has fuel for the calls of itself; Sec/Run shows that three are enough
-- to enter the runtime, whose calls of the recovery take further fuel. `fat_ls` has fuel for its
-- tests; Fat/Dir/Listing shows that it ends with more than there are entries. `bcd_to_dec` has
-- fuel 9, for eight digits and the test that ends the loop. The reset of the PHY runs over the
-- list of what its reads return. All other loops are structural. Counters of packets and overflows
-- wrap at 2 ^ 32, as in the source. `strtoul` and `atol` take the width of their `long`; where a
-- `long int` overflows, `atol` has no result.
--
-- NOT MODELLED. The kernel, lwIP and FatFs (not in the repository); the entry points of the PC and
-- of the AVR, which only call; the exception handlers, which print; the C wrappers of assembly
-- routines in src/arch/x86_64/memory.c; and the assembly files.
pub mod Base
pub mod Uart
pub mod Dma
pub mod Cga
pub mod Keyb
pub mod Std
pub mod Fat
pub mod Disk
pub mod Timer
pub mod Wheels
pub mod Player
pub mod Net
pub mod Rtm
pub mod Sec
pub mod Monitor
pub mod Con
pub mod Board
