-- ===== src/Net/Service/Output.antt =====
-- A chain of lwIP's buffers on its way to the send ring.
use rpv_platforms_evt_driven.Base.{
  ℕ, zero, suc, ◌+◌, ◌-◌, ◌^◌, ◌≤◌, ◌<◌, ◌≡◌, refl, sym, ap, ap₂, ◌∙◌, inl, inr, arith, leb,
  if◌then◌else◌, List, [], ◌∷◌, ◌++◌, append-nil, append_assoc, length, take, dec_lt,
}
use rpv_platforms_evt_driven.Dma.State.{Dma}
use rpv_platforms_evt_driven.Dma.Tx.{ethdma_txsgenque}
use rpv_platforms_evt_driven.Dma.Tx.Slots.{IsTx, packets, queued, enque_taken, enque_refused}
use rpv_platforms_evt_driven.Dma.Tx.Enque.{enque-queued}
use rpv_platforms_evt_driven.Net.Service.{err_ok, err_if, eth_output}

-- Every buffer of the chain is shorter than a slot.
pub data AllShort (chunk : ℕ) : List (List ℕ) → Type 0 where
  none_more : AllShort chunk []
  short :
      {p : List ℕ} {ps : List (List ℕ)}
      → length p < chunk
      → AllShort chunk ps
      → AllShort chunk (p ∷ ps)

take-nil : (n : ℕ) → take {A = List ℕ} n [] ≡ []
take-nil zero = refl
take-nil (suc n) = refl

pub packets-same :
    (s t : Dma) (i n : ℕ) → t.bytes ≡ s.bytes → t.bds ≡ s.bds → packets t i n ≡ packets s i n
packets-same s t i zero bytes bds = refl
packets-same s t i (suc n) bytes bds =
    ap₂ ◌∷◌ (rw (bytes, bds) refl) (packets-same s t (i + 1) n bytes bds)

-- On a well-formed send ring that no flush has locked, with slots of at most 2 ^ 16 bytes, a chain
-- of buffers that are shorter than a slot is queued buffer by buffer, each as a packet of its own, as
-- far as there are free slots but the last one. The call returns ERR_OK if that is the whole chain,
-- and ERR_IF otherwise; then the buffers in front stay queued.
pub eth_output_lem :
    (chain : List (List ℕ)) {s : Dma} {n chunk : ℕ}
    → IsTx s n chunk
    → s.txtail < n
    → chunk ≤ 2 ^ 16
    → AllShort chunk chain
    → let (err, t) = eth_output chain s in
      let room = n - (s.txtail + 1) in
      (err ≡ (if leb (length chain) room then err_ok else err_if))
      × (queued t ≡ queued s ++ take room chain)
unfolding eth_output
eth_output_lem [] {s = s} {n = n} v inside few all = (
  ground arith,
  sym (ap (λ ps. queued s ++ ps) (take-nil (n - (s.txtail + 1))) ∙ append-nil (queued s)),
)
eth_output_lem (p ∷ ps) {s = s} {n = n} {chunk = chunk} v inside few (short fits all) =
    elim (dec_lt (s.txtail + 1) n) [
      | yes more ↦
          let t = (ethdma_txsgenque p s).1 in
          let (out, queue, ring) = enque-queued p v more fits in
          let tail = (enque_taken v p more fits).1 in
          let (err, rest) = eth_output_lem ps ring (omega arith) few all in
          let left : n - (s.txtail + 1) ≡ suc (n - (t.txtail + 1)) = omega (arith, tail) in
          rw (out, eth_output)
            (
              err ∙ ground (arith, left),
              rest
                  ∙ ap (λ q. q ++ take (n - (t.txtail + 1)) ps) queue
                  ∙ append_assoc (queued s) (p ∷ []) (take (n - (t.txtail + 1)) ps)
                  ∙ ap (λ k. queued s ++ take k (p ∷ ps)) (sym left),
            )
      | no last ↦
          let t = (ethdma_txsgenque p s).1 in
          let (out, tail, bytes, bds, depth) =
            enque_refused v p (inr (inl (omega arith))) (omega arith) in
          let left : n - (s.txtail + 1) ≡ 0 = omega arith in
          rw (out, eth_output)
            (
              ground (arith, left),
              ap (λ k. packets t 0 k) tail
                  ∙ packets-same s t 0 s.txtail bytes bds
                  ∙ sym (append-nil (queued s))
                  ∙ ap (λ k. queued s ++ take k (p ∷ ps)) (sym left),
            )
    ]
