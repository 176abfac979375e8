-- ===== src/Dma/State.antt =====
-- The statics of xdma.c, the memory that it shares with the engines, and what it asks of the
-- hardware.
pub mod Bytes
use rpv_platforms_evt_driven.Base.{
  ℕ, zero, suc, ◌+◌, ◌-◌, ◌*◌, ◌%◌, ◌^◌, ◌==◌, if◌then◌else◌, Bool, List, [], ◌∷◌, length,
}
use rpv_platforms_evt_driven.Dma.Bd.{BdMem, io_buffer_size}
use rpv_platforms_evt_driven.Dma.Registers.{Control, control_reg}

-- XDMA2_MAX_BDS
abbrev pub max_bds : ℕ
max_bds = 10

-- The mark in `eth_txtail` while a flush is in progress.
abbrev pub tx_locked : ℕ
tx_locked = 0xFF

-- XDMA_BTT_MAX
abbrev pub btt_max : ℕ
btt_max = 2 ^ 14 - 1

-- XDMA0_IO_ADDR, XDMA1_IO_ADDR, XDMA2_IO_ADDR and the slots behind it for sending
abbrev pub xdma0_io_addr : ℕ
xdma0_io_addr = 0x8000_0000

abbrev pub xdma1_io_addr : ℕ
xdma1_io_addr = 0x8000_4000

abbrev pub s2mm_buffer : ℕ
s2mm_buffer = 0x8000_8000

abbrev pub mm2s_buffer : ℕ
mm2s_buffer = 0x8000_8000 + io_buffer_size

-- XDMA1_MM2S_RINGADDR, XDMA2_S2MM_RINGADDR and XDMA2_MM2S_RINGADDR
abbrev pub sound_ring : ℕ
sound_ring = 0x8001_0000

abbrev pub s2mm_ring : ℕ
s2mm_ring = 0x8001_0080

abbrev pub mm2s_ring : ℕ
mm2s_ring = 0x8001_0300

-- The channels that the driver uses.
pub data Channel : Type 0 where
  xdma0_mm2s xdma0_s2mm xdma1_mm2s xdma2_mm2s xdma2_s2mm : Channel

pub data Signal : Type 0 where
  sigint sigbus : Signal

-- What the driver asks of the hardware and of the kernel. A wait is the loop on a status bit that
-- the engine changes.
pub data Effect : Type 0 where
  dcache_flush dcache_invalidate : (addr len : ℕ) → Effect
  write_cr : Channel → ℕ → Effect
  write_sr : Channel → ℕ → Effect
  write_currdesc write_taildesc : Channel → ℕ → Effect
  write_buffer write_trans_len : Channel → ℕ → Effect
  set_rs set_reset : Channel → Bool → Effect
  await_reset await_halted : Channel → Effect
  irq_disable : ℕ → Effect
  irq_enable : ℕ → Effect
  kernel_raise : Signal → Effect

pub record Dma : Type 0 where
  pub rxcount : ℕ
  pub txcount : ℕ
  pub lostcount : ℕ
  pub rxtail : ℕ
  pub rxhead : ℕ
  pub txtail : ℕ
  pub txpkts : ℕ
  pub txdepth : ℕ
  pub ethdma_txbuserr : Bool
  pub ethdma_rxbuserr : Bool
  pub sbdma_cmplt : Bool
  pub sbdma_buserr : Bool
  pub bds : BdMem
  pub bytes : ℕ → ℕ
  -- newest first
  pub trace : List Effect

-- One more effect, and the rest as it was; then several, in program order.
abbrev pub emit : Dma → Effect → Dma
emit s e = record s { trace = e ∷ s.trace }

abbrev pub emits : Dma → List Effect → Dma
emits s [] = s
emits s (e ∷ es) = emits (emit s e) es

-- `memcpy` into memory.
unfoldable pub copy_in : (ℕ → ℕ) → ℕ → List ℕ → ℕ → ℕ
copy_in m a [] = m
copy_in m a (b ∷ bs) = copy_in (λ x. if x == a then b else m x) (a + 1) bs

-- The bytes that a `memcpy` out of memory moves.
unfoldable pub copy_out : (ℕ → ℕ) → ℕ → ℕ → List ℕ
copy_out m a zero = []
copy_out m a (suc n) = m a ∷ copy_out m (a + 1) n
