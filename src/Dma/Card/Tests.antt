-- ===== src/Dma/Card/Tests.antt =====
-- The SD card's transfers at concrete sizes.
use rpv_platforms_evt_driven.Base.{◌≡◌, refl, none, some}
use rpv_platforms_evt_driven.Dma.Registers.{status_of}
use rpv_platforms_evt_driven.Dma.State.{xdma0_io_addr}
use rpv_platforms_evt_driven.Dma.Engine.{directdma_trans}
use rpv_platforms_evt_driven.Dma.Fixture.{fresh}
use rpv_platforms_evt_driven.Dma.Card.{transfer_ongoing, sdcdma_rdt}

one_sector : (sdcdma_rdt 1 512 fresh).0 ≡ some xdma0_io_addr
unfolding sdcdma_rdt transfer_ongoing status_of directdma_trans
one_sector = refl

too_long : (sdcdma_rdt 1 0x4000 fresh).0 ≡ none
unfolding sdcdma_rdt transfer_ongoing status_of
too_long = refl
