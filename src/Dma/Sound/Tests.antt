-- ===== src/Dma/Sound/Tests.antt =====
-- The sound blaster's ring with the sizes that sb_service.c gives it.
use rpv_platforms_evt_driven.Base.{◌==◌, ◌+◌, ◌≡◌, refl, some, true, if◌then◌else◌}
use rpv_platforms_evt_driven.Dma.Bd.{ring_bd}
use rpv_platforms_evt_driven.Dma.State.{Dma, xdma1_io_addr, sound_ring}
use rpv_platforms_evt_driven.Dma.Fixture.{fresh}
use rpv_platforms_evt_driven.Dma.Sound.{sbdma_sgcmplt, find_cmplt, take_cmplt}
use rpv_platforms_evt_driven.Dma.Sound.Laws.{IsSound, second_bd}

-- The engine has played the second half.
abbrev played : Dma
played = record fresh {
  bds = λ a.
      if a == sound_ring
      then ring_bd second_bd xdma1_io_addr 8192
      else record (ring_bd sound_ring (xdma1_io_addr + 8192) 8192) { cmplt = true };
}

played-IsSound : IsSound played 8192
played-IsSound = record {
  next_first = refl;
  next_second = refl;
  buffer_first = refl;
  buffer_second = refl;
  len_first = refl;
  len_second = refl;
}

refill_second : (sbdma_sgcmplt 8192 played).0 ≡ some (xdma1_io_addr + 8192)
unfolding sbdma_sgcmplt find_cmplt take_cmplt
refill_second = refl
