-- ===== src/Dma/Sound/Laws.antt =====
-- The two-buffer hand-over of the sound blaster.
use rpv_platforms_evt_driven.Base.{
  ℕ, zero, suc, ◌+◌, ◌*◌, ◌/◌, ◌%◌, ◌^◌, ◌≤◌, ◌<◌, ◌≡◌, refl, subst, arith, true, false, none, some,
  ◌==◌, if◌then◌else◌, ◌&&◌, leb, ltb,
}
use rpv_platforms_evt_driven.Dma.Bd.{bd_size, BdMem, write_bd, ring_bd, sgdma_ring, valid_split}
use rpv_platforms_evt_driven.Dma.Bd.Layout.{IsRing, sgdma_ring-IsRing, valid_split_lem}
use rpv_platforms_evt_driven.Dma.State.{Dma, xdma1_io_addr, sound_ring}
use rpv_platforms_evt_driven.Dma.Engine.{sgdma_sgallowed, sgdma_cyclic_trans}
use rpv_platforms_evt_driven.Dma.Sound.{
  sound_bds, find_cmplt, take_cmplt, sbdma_sgcmplt, sbdma_sgcyclic, fill,
}

-- The second descriptor.
abbrev pub second_bd : ℕ
second_bd = sound_ring + bd_size

-- The ring of two: the descriptors point to each other and to the halves of the buffer.
pub record IsSound (s : Dma) (half : ℕ) : Type 0 where
  pub next_first : (s.bds sound_ring).next ≡ second_bd
  pub next_second : (s.bds second_bd).next ≡ sound_ring
  pub buffer_first : (s.bds sound_ring).buffer ≡ xdma1_io_addr
  pub buffer_second : (s.bds second_bd).buffer ≡ xdma1_io_addr + half
  pub len_first : (s.bds sound_ring).buffer_len ≡ half
  pub len_second : (s.bds second_bd).buffer_len ≡ half

-- The search takes the first half if the engine has completed it, else the second if that is
-- completed, else none.
find_cmplt_two :
    {s : Dma} {half : ℕ}
    → IsSound s half
    → find_cmplt sound_bds sound_ring s.bds ≡ (
        if (s.bds sound_ring).cmplt
        then some sound_ring
        else if (s.bds second_bd).cmplt
        then some second_bd
        else none)
unfolding find_cmplt
find_cmplt_two v = ground arith

-- On a well-formed sound ring a refill gets the first half of the buffer if the engine has played it, else the second half if
-- it has played that, else NULL; the ring stays well formed, and the half that is handed over is
-- marked as not played.
pub sbdma_sgcmplt-IsSound :
    {s : Dma} {half : ℕ}
    → IsSound s half
    → let (out, s') = sbdma_sgcmplt half s in
      IsSound s' half
      × (out ≡ (
          if (s.bds sound_ring).cmplt
          then some xdma1_io_addr
          else if (s.bds second_bd).cmplt
          then some (xdma1_io_addr + half)
          else none))
      × ((s'.bds sound_ring).cmplt ≡ false)
      × ((s'.bds second_bd).cmplt ≡ ((s.bds sound_ring).cmplt && (s.bds second_bd).cmplt))
unfolding sbdma_sgcmplt take_cmplt write_bd
sbdma_sgcmplt-IsSound {s} v = ground (arith, find_cmplt_two v)

pub fill_lem :
    (m : ℕ → ℕ) (a v n x : ℕ)
    → fill m a v n x ≡ (if leb a x && ltb x (a + n) then v % 2 ^ 8 else m x)
unfolding fill
fill_lem m a v zero x = ground arith
fill_lem m a v (suc n) x =
    ground (arith, fill_lem (λ y. if y == a then v % 2 ^ 8 else m y) (a + 1) v n x)

double-div : (half : ℕ) → 0 < half → (half + half) / half ≡ 2
double-div half h = grind arith

-- The ring of `xsgdma_ring` with two chunks.
two_ring-IsSound :
    {s : Dma} {half : ℕ}
    → IsRing s.bds sound_ring xdma1_io_addr 2 half
    → half < 2 ^ 26
    → IsSound s half
two_ring-IsSound {s} {half} ring small = ground (arith, first, second)
  where
    first : s.bds sound_ring ≡ ring_bd second_bd (xdma1_io_addr + 0 * half) half
    first = ring 0 sound_ring (omega arith) refl

    second : s.bds second_bd ≡ ring_bd sound_ring (xdma1_io_addr + 1 * half) half
    second = ring 1 second_bd (omega arith) refl

-- With valid sizes and a halted engine the sound ring is set up with its two halves, well formed,
-- over a buffer that holds the byte for silence throughout.
pub sbdma_sgcyclic-IsSound :
    (sr seed half : ℕ) (s : Dma)
    → valid_split (half + half) half ≡ true
    → sgdma_sgallowed sr ≡ true
    → 0 < half
    → let (out, s') = sbdma_sgcyclic sr seed (half + half) half s in
      (out ≡ some xdma1_io_addr)
      × IsSound s' half
      × ((x : ℕ)
          → xdma1_io_addr ≤ x
          → x < xdma1_io_addr + (half + half)
          → s'.bytes x ≡ seed % 2 ^ 8)
unfolding sbdma_sgcyclic sgdma_cyclic_trans
sbdma_sgcyclic-IsSound sr seed half s split allowed some_half =
    let limits = valid_split_lem (half + half) half split in
    let two : (half + half) / half ≡ 2 = double-div half some_half in
    let m : BdMem = (sgdma_ring sound_ring xdma1_io_addr (half + half) half s.bds).1 in
    let ring =
      (sgdma_ring-IsRing sound_ring xdma1_io_addr (half + half) half s.bds
        (omega (arith, limits.0))).2 in
    rw (split, allowed)
      (
        refl,
        two_ring-IsSound (subst (λ n. IsRing m sound_ring xdma1_io_addr n half) two ring)
            (omega (arith, limits.0)),
        λ x lo hi. ground (arith, fill_lem s.bytes xdma1_io_addr seed (half + half) x),
      )
