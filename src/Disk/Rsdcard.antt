-- ===== src/Disk/Rsdcard.antt =====
-- src/arch/mb_le/sys/rsdcard.c: the SD card controller over the card's DMA.
pub mod Transfer
use rpv_platforms_evt_driven.Base.{
  ℕ, ◌+◌, ◌*◌, ◌%◌, ◌^◌, if◌then◌else◌, Bool, true, false, not, List, [], ◌∷◌, Option, none, some,
  length,
}
use rpv_platforms_evt_driven.Dma.State.{
  Dma, dcache_flush, dcache_invalidate, emit, xdma0_io_addr, copy_in, copy_out,
}
use rpv_platforms_evt_driven.Dma.Card.{sdcdma_wrt, sdcdma_rdt}

-- SDCARD_SECTOR_SIZE, IO_READ and IO_WRITE
abbrev pub sector_size : ℕ
sector_size = 512

abbrev pub io_read : ℕ
io_read = 1

abbrev pub io_write : ℕ
io_write = 2

-- What the controller and the DMA channel show during one call: idle when it begins, the status of
-- the DMA channel, the error flag when the operation is complete, and the bytes that the DMA has put
-- into the I/O buffer by then. The two busy waits end when the flags they wait for come.
pub record CardRun : Type 0 where
  pub idle : Bool
  pub dma_sr : ℕ
  pub ioe : Bool
  pub incoming : List ℕ

-- The writes of the address and of the control register, in order.
pub record CardOp : Type 0 where
  pub addr : ℕ
  pub control : ℕ

pub record Card : Type 0 where
  pub dma : Dma
  pub ops : List CardOp

-- The control register: three bits of operation and, from bit 4 on, sixteen bits of sectors.
unfoldable pub card_control : (op_code count : ℕ) → ℕ
card_control op_code count = op_code % 2 ^ 3 + count % 2 ^ 16 * 2 ^ 4

abbrev start_op : (sector op_code count : ℕ) → Card → Card
start_op sector op_code count c = record c {
  ops = record { addr = sector % 2 ^ 32; control = card_control op_code count } ∷ c.ops;
}

-- `_rsdcard_read`: the bytes that it copies to `mem`, `none` for false.
unfoldable pub rsdcard_read : CardRun → (mem sector count : ℕ) → Card → Option (List ℕ) × Card
rsdcard_read run mem sector count c =
    if not run.idle
    then (none, c)
    else let m_len = count * sector_size % 2 ^ 32 in
      let (io_buffer, dma) = sdcdma_rdt run.dma_sr m_len c.dma in
      elim io_buffer [
        | none ↦ (none, record c { dma = dma })
        | some io ↦
            let filled : Dma = record dma { bytes = copy_in dma.bytes io run.incoming } in
            let started = start_op sector io_read count (record c { dma = filled }) in
            if run.ioe then (none, started) else (
              some (copy_out filled.bytes io m_len),
              record started {
                dma = emit (emit filled (dcache_invalidate io m_len)) (dcache_flush mem m_len);
              },
            )
      ]

-- `_rsdcard_write`: `bytes` are the `count * 512` bytes, modulo 2 ^ 32, at the address `mem`.
unfoldable pub rsdcard_write :
    CardRun → (mem : ℕ) (bytes : List ℕ) (sector count : ℕ) → Card → Bool × Card
rsdcard_write run mem bytes sector count c =
    if not run.idle
    then (false, c)
    else let (io_buffer, dma) = sdcdma_wrt run.dma_sr mem bytes c.dma in
      elim io_buffer [
        | none ↦ (false, record c { dma = dma })
        | some io ↦ (not run.ioe, start_op sector io_write count (record c { dma = dma }))
      ]
