-- ===== src/Disk/Rsdcard/Transfer.antt =====
-- src/arch/mb_le/sys/rsdcard.c: card transfers of 1 to 31 sectors, and what is refused.
use rpv_platforms_evt_driven.Base.{
  ℕ, ◌+◌, ◌*◌, ◌%◌, ◌^◌, ◌≤◌, ◌<◌, ◌≡◌, ◌≢◌, ◌⊎◌, inl, inr, refl, subst, ap, ◌∙◌, arith,
  if◌then◌else◌, true, false, not, Bool-cases, List, ◌∷◌, none, some, length,
}
use rpv_platforms_evt_driven.Dma.State.{Dma, xdma0_io_addr, copy_in, copy_out}
use rpv_platforms_evt_driven.Dma.State.Bytes.{copy_out-copy_in}
use rpv_platforms_evt_driven.Dma.Card.{transfer_ongoing, sdcdma_wrt, sdcdma_rdt}
use rpv_platforms_evt_driven.Dma.Card.Laws.{sdcdma_wrt-starts, sdcdma_rdt_lem}
use rpv_platforms_evt_driven.Disk.Rsdcard.{
  sector_size, CardRun, CardOp, Card, card_control, rsdcard_read, rsdcard_write,
}

-- The sectors that one transfer can move.
pub record IsShort (count : ℕ) : Type 0 where
  pub some_sectors : 0 < count
  pub few_sectors : count < 32

started :
    (run : CardRun) (count : ℕ) (s : Dma)
    → transfer_ongoing run.dma_sr ≡ false
    → IsShort count
    → (sdcdma_rdt run.dma_sr (count * sector_size % 2 ^ 32) s).0 ≡ some xdma0_io_addr
started run count s free v =
    ground (arith, (sdcdma_rdt_lem run.dma_sr (count * sector_size % 2 ^ 32) s).0)

-- The control register holds the whole operation and the whole number of sectors.
one_op :
    (sector op : ℕ) {count : ℕ}
    → IsShort count
    → (ops : List CardOp) → op < 8
    → record { addr = sector % 2 ^ 32; control = card_control op count } ∷ ops
      ≡ record { addr = sector % 2 ^ 32; control = op + count * 16 } ∷ ops
unfolding card_control
one_op sector op {count} v ops small =
    ap (λ k. record { addr = sector % 2 ^ 32; control = k } ∷ ops)
      {x = op % 2 ^ 3 + count % 2 ^ 16 * 2 ^ 4} (omega (arith, v.few_sectors))

-- The bytes that the DMA put into the I/O buffer are the ones that are copied out.
moved :
    (m : ℕ → ℕ) {incoming : List ℕ} {n : ℕ}
    → length incoming ≡ n
    → copy_out (copy_in m xdma0_io_addr incoming) xdma0_io_addr n ≡ incoming
moved m {incoming} sent =
    subst (λ k. copy_out (copy_in m xdma0_io_addr incoming) xdma0_io_addr k ≡ incoming) sent
      (copy_out-copy_in m xdma0_io_addr incoming)

-- On an idle controller and a free channel, a read of 1 to 31 sectors sets the address and, uncut,
-- the number of sectors, and gives the bytes that the card sent unless it reports an error.
pub rsdcard_read_lem :
    (run : CardRun) (mem sector count : ℕ) (c : Card)
    → run.idle ≡ true
    → transfer_ongoing run.dma_sr ≡ false
    → IsShort count
    → length run.incoming ≡ count * sector_size
    → let (out, c') = rsdcard_read run mem sector count c in
      (out ≡ (if run.ioe then none else some run.incoming))
      × (c'.ops ≡ record { addr = sector % 2 ^ 32; control = 1 + count * 16 } ∷ c.ops)
unfolding rsdcard_read card_control
rsdcard_read_lem run mem sector count c idle free v sent =
    rw (idle, rsdcard_read)
      (rw (started run count c.dma free v, rsdcard_read)
        (elim (Bool-cases run.ioe) [
          | inl failed ↦ rw (failed, rsdcard_read) (refl, one_op sector 1 v c.ops (omega arith))
          | inr fine ↦
              rw (fine, rsdcard_read)
                (
                  ap some (
                      moved (sdcdma_rdt run.dma_sr (count * sector_size % 2 ^ 32) c.dma).1.bytes
                        (omega (arith, sent, v.few_sectors))),
                  one_op sector 1 v c.ops (omega arith),
                )
        ]))

-- On an idle controller and a free channel, a write of 1 to 31 sectors that are not at NULL puts
-- their bytes into the I/O buffer, sets the address and, uncut, the number of sectors, and is
-- reported to succeed unless the card reports an error.
pub rsdcard_write_lem :
    (run : CardRun) (mem : ℕ) (bytes : List ℕ) (sector count : ℕ) (c : Card)
    → run.idle ≡ true
    → transfer_ongoing run.dma_sr ≡ false
    → mem ≢ 0
    → IsShort count
    → length bytes ≡ count * sector_size
    → let (out, c') = rsdcard_write run mem bytes sector count c in
      (out ≡ not run.ioe)
      × (copy_out c'.dma.bytes xdma0_io_addr (count * sector_size) ≡ bytes)
      × (c'.ops ≡ record { addr = sector % 2 ^ 32; control = 2 + count * 16 } ∷ c.ops)
unfolding rsdcard_write card_control
rsdcard_write_lem run mem bytes sector count c idle free some_mem v whole =
    let write =
      sdcdma_wrt-starts run.dma_sr mem bytes c.dma free some_mem
        (omega (arith, whole, v.some_sectors)) (omega (arith, whole, v.few_sectors)) in
    rw (idle, rsdcard_write)
      (rw (write.0, rsdcard_write)
        (
          refl,
          subst
              (λ n.
                copy_out (sdcdma_wrt run.dma_sr mem bytes c.dma).1.bytes xdma0_io_addr n ≡ bytes)
              whole write.1,
          one_op sector 2 v c.ops (omega arith),
        ))

not_started :
    (run : CardRun) (count : ℕ) (s : Dma)
    → (transfer_ongoing run.dma_sr ≡ true) ⊎ ((count ≡ 0) ⊎ ((32 ≤ count) × (count < 2 ^ 23)))
    → sdcdma_rdt run.dma_sr (count * sector_size % 2 ^ 32) s ≡ (none, s)
unfolding sdcdma_rdt
not_started run count s h = ground arith

-- A read is refused, and neither controller nor DMA is touched, on a busy controller, on a busy
-- channel, of no sectors, and of 32 to 2 ^ 23 - 1 sectors.
pub rsdcard_read_refused :
    (run : CardRun) (mem sector count : ℕ) (c : Card)
    → (run.idle ≡ false)
      ⊎ ((transfer_ongoing run.dma_sr ≡ true) ⊎ ((count ≡ 0) ⊎ ((32 ≤ count) × (count < 2 ^ 23))))
    → rsdcard_read run mem sector count c ≡ (none, c)
unfolding rsdcard_read
rsdcard_read_refused run mem sector count c (inl busy) = rw (busy, rsdcard_read) refl
rsdcard_read_refused run mem sector count c (inr h) = elim (Bool-cases run.idle) [
  | inr busy ↦ rw (busy, rsdcard_read) refl
  | inl idle ↦
      let out = not_started run count c.dma h in
      rw (idle, rsdcard_read)
        (rw (ap (λ r. r.0) out, rsdcard_read) (ap (λ r. (none, record c { dma = r.1 })) out))
]

-- A write of 1 to 31 sectors and a read of as many behind it, each on an idle controller and a free
-- channel and without an error of the card: the write succeeds, and if the card sends the bytes that
-- the write left in the I/O buffer, the read gives the bytes that were written. Each sets its sector
-- and, uncut, the number of sectors.
pub rsdcard_read-rsdcard_write :
    (w r : CardRun) (src dst : ℕ) (bytes : List ℕ) (sector at count : ℕ) (c : Card)
    → w.idle ≡ true
    → r.idle ≡ true
    → transfer_ongoing w.dma_sr ≡ false
    → transfer_ongoing r.dma_sr ≡ false
    → w.ioe ≡ false
    → r.ioe ≡ false
    → src ≢ 0
    → IsShort count
    → length bytes ≡ count * sector_size
    → (let c1 = (rsdcard_write w src bytes sector count c).1 in
        r.incoming ≡ copy_out c1.dma.bytes xdma0_io_addr (count * sector_size))
    → let (wrote, c1) = rsdcard_write w src bytes sector count c in
      let (out, c2) = rsdcard_read r dst at count c1 in
      (wrote ≡ true)
      × (out ≡ some bytes)
      × (c2.ops
          ≡ record { addr = at % 2 ^ 32; control = 1 + count * 16 }
            ∷ record { addr = sector % 2 ^ 32; control = 2 + count * 16 }
            ∷ c.ops)
rsdcard_read-rsdcard_write w r src dst bytes sector at count c w_idle r_idle w_free r_free w_ok r_ok
      some_mem v whole kept =
    let c1 = (rsdcard_write w src bytes sector count c).1 in
    let (wrote, stored, ops) =
      rsdcard_write_lem w src bytes sector count c w_idle w_free some_mem v whole in
    let same : r.incoming ≡ bytes = kept ∙ stored in
    let (out, ops') = rsdcard_read_lem r dst at count c1 r_idle r_free v (ap length same ∙ whole) in
    (
      wrote ∙ ap not w_ok,
      out ∙ rw (r_ok, same) refl,
      ops' ∙ ap (λ os. record { addr = at % 2 ^ 32; control = 1 + count * 16 } ∷ os) ops,
    )
