-- ===== src/Net/Service/Quiet.antt =====
-- A call of the service with no signal pending.
use rpv_platforms_evt_driven.Dma.State.{Dma}
use rpv_platforms_evt_driven.Net.Lwip.{Lwip}
