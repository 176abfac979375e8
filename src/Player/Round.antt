-- ===== src/Player/Round.antt =====
-- One half of the buffer was played: the service refills it, or closes the file.
use rpv_platforms_evt_driven.Base.{
  ℕ, ◌+◌, ◌-◌, ◌≤◌, ◌≡◌, refl, arith, Bool, true, false, not, ◌&&◌, ◌==◌, ltb, if◌then◌else◌, List,
  ◌++◌, take, drop, length, replicate, Option, some, ℤ,
}
use rpv_platforms_evt_driven.Dma.Bd.{write_bd}
use rpv_platforms_evt_driven.Dma.Registers.{status_of}
use rpv_platforms_evt_driven.Dma.State.{Dma, sound_ring, emit, dcache_flush}
use rpv_platforms_evt_driven.Dma.Engine.{sgdma_ackirq}
use rpv_platforms_evt_driven.Dma.Sound.{sbdma_sgcmplt, on_sbdma_irq, take_cmplt, fill}
use rpv_platforms_evt_driven.Dma.Sound.Laws.{IsSound, second_bd, sbdma_sgcmplt-IsSound}
use rpv_platforms_evt_driven.Fat.Interface.{FatFs}
use rpv_platforms_evt_driven.Fat.Table.{Fat, fat_fread, read_at}
use rpv_platforms_evt_driven.Player.Service.{Sb, fill_chunk, buff_chunk, silence}
use rpv_platforms_evt_driven.Player.Hear.{half_addr, half_played, ReadsFiles, IsOpenAt}

-- A chunk that silence fills up.
abbrev pub padded : List ℕ → List ℕ
padded bs = bs ++ replicate (buff_chunk - length bs) silence

half_played-IsSound :
    (half : Bool) {s : Dma} → IsSound s buff_chunk → IsSound (half_played half s) buff_chunk
unfolding half_played on_sbdma_irq sgdma_ackirq write_bd
half_played-IsSound false v = ground arith
half_played-IsSound true v = ground arith

half_played-marks :
    (half : Bool) (s : Dma)
    → (s.bds sound_ring).cmplt ≡ false
    → (s.bds second_bd).cmplt ≡ false
    → (((half_played half s).bds sound_ring).cmplt ≡ not half)
      × (((half_played half s).bds second_bd).cmplt ≡ half)
unfolding half_played on_sbdma_irq sgdma_ackirq write_bd
half_played-marks false s f e = ground arith
half_played-marks true s f e = ground arith

-- The buffer that the service is handed after a half was played, and what it leaves of the ring.
pub sbdma_sgcmplt-half :
    (half : Bool) {s : Dma}
    → IsSound s buff_chunk
    → (s.bds sound_ring).cmplt ≡ false
    → (s.bds second_bd).cmplt ≡ false
    → let (out, s') = sbdma_sgcmplt buff_chunk (half_played half s) in
      IsSound s' buff_chunk
      × (out ≡ some (half_addr half))
      × ((s'.bds sound_ring).cmplt ≡ false)
      × ((s'.bds second_bd).cmplt ≡ false)
sbdma_sgcmplt-half false {s = s} v f e =
    let (marks, mark) = half_played-marks false s f e in
    ground (arith, marks, mark, sbdma_sgcmplt-IsSound (half_played-IsSound false v))
sbdma_sgcmplt-half true {s = s} v f e =
    let (marks, mark) = half_played-marks true s f e in
    ground (arith, marks, mark, sbdma_sgcmplt-IsSound (half_played-IsSound true v))

-- It touches no byte of the buffer.
pub sbdma_sgcmplt-bytes : (len : ℕ) (s : Dma) → (sbdma_sgcmplt len s).1.bytes ≡ s.bytes
unfolding sbdma_sgcmplt take_cmplt
sbdma_sgcmplt-bytes len s = ground arith

pub half_played-signals :
    (half : Bool) (s : Dma)
    → ((half_played half s).sbdma_buserr ≡ false) × ((half_played half s).sbdma_cmplt ≡ true)
unfolding half_played on_sbdma_irq sgdma_ackirq status_of
half_played-signals half s = (refl, refl)

pub half_played-bytes : (half : Bool) (s : Dma) → (half_played half s).bytes ≡ s.bytes
unfolding half_played on_sbdma_irq sgdma_ackirq
half_played-bytes half s = refl

module _ (ff : FatFs) (reads : ReadsFiles ff) where
  -- A read gives the next bytes and leaves those behind them.
  pub fat_fread-IsOpenAt :
      (fd : ℤ) (left : List ℕ) (n : ℕ) (f : Fat ff)
      → IsOpenAt ff reads fd left f
      → let (bytes, f') = fat_fread ff fd n f in
        (bytes ≡ take n left) × IsOpenAt ff reads fd (drop n left) f'
  unfolding fat_fread read_at
  fat_fread-IsOpenAt fd left n f v = ground (
    arith,
    reads.read_bytes (f.file_desc v.own) n f.volume,
    reads.read_rest (f.file_desc v.own) n f.volume,
  )

  -- The state in which the rest of `case SB_WRITE` leaves the service when it plays on.
  abbrev pub filled : (buffer n_read : ℕ) → Sb ff → Dma
  filled buffer n_read s =
      if ltb n_read buff_chunk
      then emit
          (record s.dma {
            bytes = fill s.dma.bytes (buffer + n_read) silence (buff_chunk - n_read);
          })
          (dcache_flush buffer buff_chunk)
      else s.dma

  pub fill_chunk-plays :
      (again : Sb ff → Option (Sb ff)) (buffer n_read : ℕ) (s : Sb ff)
      → ((n_read == 0) && (s.playcount == 0)) ≡ false
      → fill_chunk ff again buffer n_read s ≡ some (record s { dma = filled buffer n_read s })
  unfolding fill_chunk
  fill_chunk-plays again buffer n_read s h = ground (arith, h)

  pub filled-bytes :
      (buffer n_read : ℕ) (s : Sb ff)
      → n_read ≤ buff_chunk
      → (filled buffer n_read s).bytes
        ≡ fill s.dma.bytes (buffer + n_read) silence (buff_chunk - n_read)
  unfolding fill
  filled-bytes buffer n_read s h = ground (arith, h)
