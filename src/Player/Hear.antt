-- ===== src/Player/Hear.antt =====
-- What is heard while the service runs: the engine plays the halves of the buffer in turn and
-- reports each one by an interrupt, upon which the service is called.
use rpv_platforms_evt_driven.Base.{
  ℕ, zero, suc, ◌+◌, ◌^◌, ◌<◌, ◌≡◌, Bool, true, false, not, List, [], ◌∷◌, take, drop, Option, none,
  some, ℤ, pos, get_or,
}
use rpv_platforms_evt_driven.Dma.Bd.{write_bd}
use rpv_platforms_evt_driven.Dma.State.{Dma, xdma1_io_addr, sound_ring, copy_out}
use rpv_platforms_evt_driven.Dma.Sound.{on_sbdma_irq}
use rpv_platforms_evt_driven.Dma.Sound.Laws.{IsSound, second_bd}
use rpv_platforms_evt_driven.Fat.Interface.{FatFs}
use rpv_platforms_evt_driven.Fat.Table.{Fat, max_open_files}
use rpv_platforms_evt_driven.Player.Service.{Sb, Turn, sb_wait, sb_service, buff_chunk}

-- The two halves, and their descriptors.
abbrev pub half_addr : Bool → ℕ
half_addr false = xdma1_io_addr
half_addr true = xdma1_io_addr + buff_chunk

abbrev pub half_bd : Bool → ℕ
half_bd false = sound_ring
half_bd true = second_bd

-- The status word with the completion bit alone.
abbrev pub sr_complete : ℕ
sr_complete = 2 ^ 12

-- The engine has played a half: it marks the descriptor and raises its interrupt.
unfoldable pub half_played : Bool → Dma → Dma
half_played half s = on_sbdma_irq sr_complete (record s {
  bds = write_bd s.bds (half_bd half) (record (s.bds (half_bd half)) { cmplt = true });
})

-- A call of the service with a signal pending.
abbrev pub signalled : ℕ → Turn
signalled sr = record { pending = true; sr = sr }

module _ (ff : FatFs) where
  abbrev pub after_half : Bool → Sb ff → Sb ff
  after_half half s = record s { dma = half_played half s.dma }

  -- Cons a chunk to what is heard later.
  abbrev pub heard_first : List ℕ → Option (List (List ℕ) × Sb ff) → Option (List (List ℕ) × Sb ff)
  heard_first x none = none
  heard_first x (some (xs, s)) = some (x ∷ xs, s)

  abbrev pub then_hear :
      (Sb ff → Option (List (List ℕ) × Sb ff)) → Option (Sb ff) → Option (List (List ℕ) × Sb ff)
  then_hear rest none = none
  then_hear rest (some s) = rest s

  -- The chunks that are heard over a number of halves, and the state of the service after them.
  unfoldable pub hear : (sr rounds : ℕ) (half : Bool) → Sb ff → Option (List (List ℕ) × Sb ff)
  hear sr zero half s = some ([], s)
  hear sr (suc rounds) half s =
      heard_first (copy_out s.dma.bytes (half_addr half) buff_chunk)
        (then_hear (hear sr rounds (not half)) (sb_service ff 4 (signalled sr) (after_half half s)))

  -- Reads of the file library give the next bytes of a file, up to its end.
  pub record ReadsFiles : Type 0 where
    pub remaining : ff.Fil → ff.Volume → List ℕ
    pub read_bytes :
        (fil : ff.Fil) (n : ℕ) (v : ff.Volume) → (ff.f_read fil n v).1 ≡ take n (remaining fil v)
    pub read_rest :
        (fil : ff.Fil) (n : ℕ) (v : ff.Volume)
        → remaining (ff.f_read fil n v).2 (ff.f_read fil n v).3 ≡ drop n (remaining fil v)

  module _ (reads : ReadsFiles) where
    -- A descriptor of an open file, of which these bytes were not read yet.
    pub record IsOpenAt (fd : ℤ) (left : List ℕ) (f : Fat ff) : Type 0 where
      pub index : ℕ
      pub own : ℕ
      pub is_index : fd ≡ pos index
      pub in_table : index < max_open_files
      pub slot : get_or f.open_files index none ≡ some own
      pub bytes_left : reads.remaining (f.file_desc own) f.volume ≡ left

    -- The service plays: the engine has `x` in the half that is next and `y` in the other one, the
    -- samples `rest` were not read yet, and `count` halves are to come.
    pub record IsPlaying (half : Bool) (x y rest : List ℕ) (count : ℕ) (s : Sb ff) : Type 0 where
      pub waits : s.sb_reg ≡ sb_wait
      pub left : List ℕ
      pub is_open_at : IsOpenAt s.fd left s.fat
      pub samples_left : take s.playsize left ≡ rest
      pub size_bound : s.playsize < 2 ^ 32
      pub counted : s.playcount ≡ count
      pub count_bound : count < 2 ^ 32
      pub ring : IsSound s.dma buff_chunk
      pub first_empty : (s.dma.bds sound_ring).cmplt ≡ false
      pub second_empty : (s.dma.bds second_bd).cmplt ≡ false
      pub now : copy_out s.dma.bytes (half_addr half) buff_chunk ≡ x
      pub later : copy_out s.dma.bytes (half_addr (not half)) buff_chunk ≡ y
