-- ===== src/Dma/Bd/Layout.antt =====
-- What a ring looks like once it is set up.
use rpv_platforms_evt_driven.Base.{
  ℕ, zero, suc, ◌+◌, ◌-◌, ◌*◌, ◌/◌, ◌%◌, ◌^◌, ◌≤◌, ◌<◌, ◌≡◌, ◌≢◌, ◌⊎◌, inl, inr, refl, ap, ap₂, ◌∙◌,
  arith, ◌==◌, true, if◌then◌else◌, Bool-cases, true,
}
use rpv_platforms_evt_driven.Dma.Bd.{
  Bd, bd_size, BdMem, write_bd, ring_bd, ring_loop, sgdma_ring, io_buffer_size, valid_split,
}

pub write_bd_self : (m : BdMem) (a : ℕ) (d : Bd) → write_bd m a d a ≡ d
unfolding write_bd
write_bd_self m a d = ground arith

pub write_bd_ne : (m : BdMem) (a x : ℕ) (d : Bd) → x ≢ a → write_bd m a d x ≡ m x
unfolding write_bd
write_bd_ne m a x d h = ground arith

-- The loop writes nothing outside its descriptors.
ring_loop_outside :
    (n a sa chunk : ℕ) (m : BdMem) (x : ℕ)
    → (x < a) ⊎ (a + n * bd_size ≤ x)
    → ring_loop n a sa chunk m x ≡ m x
unfolding ring_loop
ring_loop_outside zero a sa chunk m x h = refl
ring_loop_outside (suc n) a sa chunk m x h =
    ring_loop_outside n (a + bd_size) ((sa + chunk) % 2 ^ 32) chunk
      (write_bd m a (ring_bd (a + bd_size) sa chunk)) x (omega arith)
    ∙ write_bd_ne m a x (ring_bd (a + bd_size) sa chunk) (omega arith)

-- The descriptor of round `i`, at address `x`. The buffers fit the address space.
ring_loop_inside :
    (n a sa chunk : ℕ) (m : BdMem) (i x : ℕ)
    → i < n
    → x ≡ a + i * bd_size
    → sa + n * chunk < 2 ^ 32
    → ring_loop n a sa chunk m x ≡ ring_bd (x + bd_size) (sa + i * chunk) chunk
unfolding ring_loop
ring_loop_inside zero a sa chunk m i x h e fits = absurd (omega arith)
ring_loop_inside (suc n) a sa chunk m zero x h e fits =
    let m' : BdMem = write_bd m a (ring_bd (a + bd_size) sa chunk) in
    ring_loop_outside n (a + bd_size) ((sa + chunk) % 2 ^ 32) chunk m' x (omega arith)
    ∙ ap m' {y = a} (omega arith)
    ∙ write_bd_self m a (ring_bd (a + bd_size) sa chunk)
    ∙ ap₂ (λ nx b. ring_bd nx b chunk) {y = x + bd_size} {v = sa + 0 * chunk} (omega arith)
        (omega arith)
ring_loop_inside (suc n) a sa chunk m (suc i) x h e fits =
    ring_loop_inside n (a + bd_size) ((sa + chunk) % 2 ^ 32) chunk
      (write_bd m a (ring_bd (a + bd_size) sa chunk)) i x (omega arith) (omega arith) (omega arith)
    ∙ ap (λ b. ring_bd (x + bd_size) b chunk) {y = sa + suc i * chunk} (omega arith)

-- A ring of `n` descriptors at `head`: each points to its slot of the I/O area and to the next
-- one, the last to the first, and is empty.
abbrev pub IsRing : (m : BdMem) (head io_head n chunk : ℕ) → Type 0
IsRing m head io_head n chunk =
    (i x : ℕ)
    → i < n
    → x ≡ head + i * bd_size
    → m x ≡ ring_bd (if i + 1 == n then head else x + bd_size) (io_head + i * chunk) chunk

close-IsRing :
    (n head io_head chunk : ℕ) (m : BdMem)
    → io_head + n * chunk < 2 ^ 32
    → let filled = ring_loop n head io_head chunk m in
      let last = head + n * bd_size - bd_size in
      IsRing (write_bd filled last (record (filled last) { next = head })) head io_head n chunk
close-IsRing n head io_head chunk m fits i x h e = elim (Bool-cases (i + 1 == n)) [
  | inl end ↦ rw end (
      ap (write_bd filled last (record (filled last) { next = head })) {y = last} (ground arith)
      ∙ write_bd_self filled last (record (filled last) { next = head })
      ∙ ap {A = Bd} {B = Bd} (λ d. record d { next = head })
          (ring_loop_inside n head io_head chunk m i last h (ground arith) fits))
  | inr more ↦ rw more (
      write_bd_ne filled last x (record (filled last) { next = head }) (ground arith)
      ∙ ring_loop_inside n head io_head chunk m i x h e fits)
]
  where
    filled : BdMem
    filled = ring_loop n head io_head chunk m

    last : ℕ
    last = head + n * bd_size - bd_size

mul_div_le : (len chunk : ℕ) → len / chunk * chunk ≤ len
mul_div_le len chunk = grind arith

-- `xsgdma_ring` leaves a closed ring of `len / chunk` descriptors whose slots lie one after the
-- other from `io_head` on, if the I/O area ends below the 4 GB limit.
pub sgdma_ring-IsRing :
    (head io_head len chunk : ℕ) (m : BdMem)
    → io_head + len < 2 ^ 32
    → let (n, m') = sgdma_ring head io_head len chunk m in
      (n ≡ len / chunk) × (len / chunk * chunk ≤ len) × IsRing m' head io_head (len / chunk) chunk
unfolding sgdma_ring
sgdma_ring-IsRing head io_head len chunk m fits = (
  refl,
  mul_div_le len chunk,
  close-IsRing (len / chunk) head io_head chunk m (omega (arith, mul_div_le len chunk)),
)

-- It writes no descriptor outside the ring, if the ring has one at least.
pub sgdma_ring_outside :
    (head io_head len chunk : ℕ) (m : BdMem) (x : ℕ)
    → 0 < len / chunk
    → (x < head) ⊎ (head + len / chunk * bd_size ≤ x)
    → (sgdma_ring head io_head len chunk m).1 x ≡ m x
unfolding sgdma_ring
sgdma_ring_outside head io_head len chunk m x some out =
    let filled = ring_loop (len / chunk) head io_head chunk m in
    let last = head + len / chunk * bd_size - bd_size in
    write_bd_ne filled last x (record (filled last) { next = head }) (omega arith)
    ∙ ring_loop_outside (len / chunk) head io_head chunk m x out

-- What the check of the arguments ensures.
pub valid_split_lem :
    (alloc_len io_buff : ℕ)
    → valid_split alloc_len io_buff ≡ true
    → (alloc_len ≤ io_buffer_size) × (io_buff ≤ alloc_len) × (alloc_len % io_buff ≡ 0)
unfolding valid_split
valid_split_lem alloc_len io_buff h = ground arith
