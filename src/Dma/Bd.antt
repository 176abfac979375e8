-- ===== src/Dma/Bd.antt =====
-- The buffer descriptors of a scatter-gather ring and `xsgdma_ring`, which sets one up.
pub mod Layout
use rpv_platforms_evt_driven.Base.{
  ℕ, zero, suc, ◌+◌, ◌-◌, ◌*◌, ◌/◌, ◌%◌, ◌^◌, ◌==◌, ltb, if◌then◌else◌, Bool, true, false, not,
  ◌||◌, Option, none, some,
}

-- `xsgdmadesc_t`: the words that the driver reads or writes. `next` and `buffer` are addresses.
pub record Bd : Type 0 where
  pub next : ℕ
  pub buffer : ℕ
  pub buffer_len : ℕ
  pub tx_eof : Bool
  pub tx_sof : Bool
  pub trans_len : ℕ
  pub dma_int_err : Bool
  pub dma_int_slv_err : Bool
  pub dma_dec_err : Bool
  pub cmplt : Bool

-- sizeof(xsgdmadesc_t)
abbrev pub bd_size : ℕ
bd_size = 64

-- The descriptor at each address of the memory that holds the rings.
abbrev pub BdMem : Type 0
BdMem = ℕ → Bd

unfoldable pub write_bd : BdMem → ℕ → Bd → BdMem
write_bd m a d = λ x. if x == a then d else m x

-- The descriptor of one round of the loop, over the zeros that `memset` left there.
abbrev pub ring_bd : (next buffer chunk : ℕ) → Bd
ring_bd next buffer chunk = record {
  next = next;
  buffer = buffer;
  buffer_len = chunk % 2 ^ 26;
  tx_eof = true;
  tx_sof = true;
  trans_len = 0;
  dma_int_err = false;
  dma_int_slv_err = false;
  dma_dec_err = false;
  cmplt = false;
}

-- The loop of `xsgdma_ring`: `n` rounds are left, at descriptor `a` and buffer address `sa`.
unfoldable pub ring_loop : (n a sa chunk : ℕ) → BdMem → BdMem
ring_loop zero a sa chunk m = m
ring_loop (suc n) a sa chunk m =
    ring_loop n (a + bd_size) ((sa + chunk) % 2 ^ 32) chunk
      (write_bd m a (ring_bd (a + bd_size) sa chunk))

-- `xsgdma_ring`: the number of descriptors, and the memory with the ring closed.
unfoldable pub sgdma_ring : (head io_head len chunk : ℕ) → BdMem → ℕ × BdMem
sgdma_ring head io_head len chunk m =
    let bd_count = len / chunk in
    let filled = ring_loop bd_count head io_head chunk m in
    let last = head + bd_count * bd_size - bd_size in
    (bd_count, write_bd filled last (record (filled last) { next = head }))

-- XDMA_IO_BUFFER_SIZE
abbrev pub io_buffer_size : ℕ
io_buffer_size = 2 ^ 14

-- The check of the arguments of `_ethdma_rxsgcyclic`, `_ethdma_txsgnormal` and `_sbdma_sgcyclic`.
-- At `io_buff = 0` the remainder of the code is undefined; that case is excluded by the callers.
unfoldable pub valid_split : (alloc_len io_buff : ℕ) → Bool
valid_split alloc_len io_buff = not (
    not (io_buff % 2 ^ 2 == 0)
    || ltb io_buffer_size alloc_len
    || ltb alloc_len io_buff
    || not (alloc_len % io_buff == 0))
