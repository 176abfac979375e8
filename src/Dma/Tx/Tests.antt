-- ===== src/Dma/Tx/Tests.antt =====
-- Runs of the send ring with the sizes that xtemac.c gives it, and the theorems there.
use rpv_platforms_evt_driven.Base.{ℕ, ◌+◌, ◌*◌, ◌≡◌, refl, arith, some, none, [], ◌∷◌, ◌++◌}
use rpv_platforms_evt_driven.Dma.Bd.{valid_split, sgdma_ring, ring_loop, write_bd}
use rpv_platforms_evt_driven.Dma.Registers.{status_of}
use rpv_platforms_evt_driven.Dma.State.{Dma, mm2s_buffer, copy_in, copy_out}
use rpv_platforms_evt_driven.Dma.Engine.{sgdma_sgallowed, sgdma_ackirq, sgdma_seq_trans}
use rpv_platforms_evt_driven.Dma.Fixture.{fresh, sr_halted, sr_ioc}
use rpv_platforms_evt_driven.Dma.Rx.Balance.{count_some}
use rpv_platforms_evt_driven.Dma.Tx.{
  ethdma_txsgnormal, ethdma_txsgenque, ethdma_txsgflush, on_ethdma_txirq,
}
use rpv_platforms_evt_driven.Dma.Tx.Slots.{IsTx, queued}
use rpv_platforms_evt_driven.Dma.Tx.Enque.{txsgnormal-IsTx, enque-queued}
use rpv_platforms_evt_driven.Dma.Tx.Balance.{Balanced, here, next, enque, flush, TxReach-Balanced}

-- XTEMAC_MTU and XTEMAC_MTUS_BUFFER
abbrev mtu : ℕ
mtu = 1536

abbrev mtus : ℕ
mtus = 15360

ready : Dma
unfolding ethdma_txsgnormal valid_split sgdma_sgallowed status_of sgdma_ring ring_loop write_bd
ready = (ethdma_txsgnormal sr_halted mtus mtu fresh).1

ready-IsTx : IsTx ready 10 mtu
unfolding ready
ready-IsTx = (txsgnormal-IsTx sr_halted mtus mtu fresh refl refl (omega arith) (omega arith)).2

-- Two packets are queued, flushed and counted.
packet_run :
    let s1 = (ethdma_txsgenque (1 ∷ 2 ∷ []) ready).1 in
    let s2 = (ethdma_txsgenque (3 ∷ []) s1).1 in
    let s3 = on_ethdma_txirq sr_ioc (ethdma_txsgflush s2) in
    (queued s2 ≡ (1 ∷ 2 ∷ []) ∷ (3 ∷ []) ∷ []) × (s3.txcount ≡ 2) × (s3.txtail ≡ 0)
unfolding ready ethdma_txsgenque ethdma_txsgflush on_ethdma_txirq sgdma_seq_trans sgdma_ackirq
    copy_in copy_out
packet_run = (refl, refl, refl)

-- The tenth slot is refused.
last_slot : (ethdma_txsgenque (1 ∷ []) (record ready { txtail = 9 })).0 ≡ none
unfolding ready ethdma_txsgenque
last_slot = refl

enque-queued_example :
    let (out, s') = ethdma_txsgenque (1 ∷ 2 ∷ []) ready in
    (out ≡ some (mm2s_buffer + ready.txtail * mtu))
    × (queued s' ≡ queued ready ++ ((1 ∷ 2 ∷ []) ∷ []))
    × IsTx s' 10 mtu
unfolding ready
enque-queued_example = enque-queued (1 ∷ 2 ∷ []) ready-IsTx (omega arith) (omega arith)

ready-Balanced : Balanced 10 mtu (0, ready)
unfolding ready
ready-Balanced = record { ring = ready-IsTx; balance = refl }

TxReach-Balanced_example : Balanced 10 mtu (
    let (out, s') = ethdma_txsgenque (1 ∷ 2 ∷ []) ready in
    (0 + count_some out, ethdma_txsgflush s'))
TxReach-Balanced_example =
    TxReach-Balanced ready-Balanced
      (next (next here (enque 0 ready (1 ∷ 2 ∷ []) (omega arith))) (flush _ _))
