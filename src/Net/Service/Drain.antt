-- ===== src/Net/Service/Drain.antt =====
-- The receive queue is emptied into lwIP.
use rpv_platforms_evt_driven.Base.{
  ℕ, zero, suc, ◌+◌, ◌-◌, ◌*◌, ◌%◌, ◌≤◌, ◌<◌, ◌≡◌, refl, sym, ap, ap₂, subst, ◌∙◌, arith, if-both,
  false, inl, inr, Bool-cases, true, not, List, [], ◌∷◌, length,
}
use rpv_platforms_evt_driven.Base.Index.{next_index}
use rpv_platforms_evt_driven.Dma.Bd.{Bd, bd_size, write_bd}
use rpv_platforms_evt_driven.Dma.State.{Dma, max_bds, s2mm_ring, s2mm_buffer, mm2s_buffer, copy_out}
use rpv_platforms_evt_driven.Dma.State.Bytes.{copy_out-eq}
use rpv_platforms_evt_driven.Dma.Rx.{ethdma_rxsgcmplt, clear_status}
use rpv_platforms_evt_driven.Dma.Rx.Queue.{
  IsRx, waiting, oldest, Ready, Taken, Ready-Taken, eth_rxqcount_lem,
}
use rpv_platforms_evt_driven.Net.Mac.{xtemac_mtu}
use rpv_platforms_evt_driven.Net.Lwip.{Lwip}
use rpv_platforms_evt_driven.Net.Service.{Input, new_input, take_packet, input_loop, eth_input}

-- The descriptor `k` behind the oldest one.
abbrev pub rx_bd : (tail k : ℕ) → ℕ
rx_bd tail k = s2mm_ring + (tail + k) % max_bds * bd_size

-- The packets of `n` descriptors from the oldest one on.
abbrev pub rx_packets : Dma → (tail n : ℕ) → List (List ℕ)
rx_packets d tail zero = []
rx_packets d tail (suc n) =
    let b = d.bds (rx_bd tail 0) in
    copy_out d.bytes b.buffer b.trans_len ∷ rx_packets d (next_index max_bds tail) n

-- A packet that the engine has written, in the receive buffer.
pub record IsReceived (b : Bd) : Type 0 where
  pub complete : b.cmplt ≡ true
  pub fits : b.trans_len ≤ xtemac_mtu
  pub above : s2mm_buffer ≤ b.buffer
  pub below : b.buffer + b.trans_len ≤ mm2s_buffer

abbrev pub AllReceived : Dma → (tail n : ℕ) → Type 0
AllReceived d tail n = (k : ℕ) → k < n → IsReceived (d.bds (rx_bd tail k))

-- The receive half of the driver is the same.
pub record SameRx (d e : Dma) : Type 0 where
  pub same_head : e.rxhead ≡ d.rxhead
  pub same_tail : e.rxtail ≡ d.rxtail
  pub same_bds :
      (k : ℕ) → k < max_bds → e.bds (s2mm_ring + k * bd_size) ≡ d.bds (s2mm_ring + k * bd_size)
  pub same_bytes : (x : ℕ) → s2mm_buffer ≤ x → x < mm2s_buffer → e.bytes x ≡ d.bytes x

pub SameRx-refl : (d : Dma) → SameRx d d
SameRx-refl d = record {
  same_head = refl;
  same_tail = refl;
  same_bds = λ k h. refl;
  same_bytes = λ x lo hi. refl;
}

pub rx_bd-next :
    (tail k : ℕ) → tail < max_bds → rx_bd (next_index max_bds tail) k ≡ rx_bd tail (suc k)
unfolding next_index
rx_bd-next tail k h = ground arith

pub next_in : (tail : ℕ) → tail < max_bds → next_index max_bds tail < max_bds
unfolding next_index
next_in tail h = ground arith

pub AllReceived-next :
    (d : Dma) (tail n : ℕ)
    → tail < max_bds
    → AllReceived d tail (suc n)
    → AllReceived d (next_index max_bds tail) n
AllReceived-next d tail n h all k l =
    subst (λ a. IsReceived (d.bds a)) (sym (rx_bd-next tail k h)) (all (suc k) (omega arith))

rx_packets-same :
    (d e : Dma) (tail n : ℕ)
    → tail < max_bds
    → AllReceived d tail n
    → ((k : ℕ) → k < n → e.bds (rx_bd tail k) ≡ d.bds (rx_bd tail k))
    → ((x : ℕ) → s2mm_buffer ≤ x → x < mm2s_buffer → e.bytes x ≡ d.bytes x)
    → rx_packets e tail n ≡ rx_packets d tail n
rx_packets-same d e tail zero h all bds bytes = refl
rx_packets-same d e tail (suc n) h all bds bytes =
    let b = d.bds (rx_bd tail 0) in
    let v = all 0 (omega arith) in
    ap₂ ◌∷◌
      (ap (λ (c : Bd). copy_out e.bytes c.buffer c.trans_len) (bds 0 (omega arith))
        ∙ copy_out-eq e.bytes d.bytes b.buffer b.trans_len
            (λ x lo hi. bytes x (omega (arith, v.above)) (omega (arith, v.below))))
      (rx_packets-same d e (next_index max_bds tail) n (next_in tail h)
        (AllReceived-next d tail n h all)
        (λ k l.
          let a = rx_bd-next tail k h in
          ap (λ x. e.bds x) a ∙ bds (suc k) (omega arith) ∙ ap (λ x. d.bds x) (sym a))
        bytes)

-- What a completion does besides `Taken`.
completed :
    (mem_len : ℕ) (d : Dma)
    → Ready mem_len d
    → let e = (ethdma_rxsgcmplt mem_len d).1 in
      (e.rxtail ≡ next_index max_bds d.rxtail) × (e.bytes ≡ d.bytes)
unfolding ethdma_rxsgcmplt
completed mem_len d (some_wait, cmplt, fits) = ground arith

oldest_lem : (d : Dma) → IsRx d → oldest d ≡ d.bds (rx_bd d.rxtail 0)
oldest_lem d rx = ap (λ a. d.bds a) (omega (arith, rx.tail_in))

waiting-Ready :
    (d : Dma) (n : ℕ)
    → IsRx d
    → waiting d ≡ suc n
    → AllReceived d d.rxtail (suc n)
    → Ready xtemac_mtu d
waiting-Ready d n rx all_wait all =
    let v = subst (λ b. IsReceived b) (sym (oldest_lem d rx)) (all 0 (omega arith)) in
    ((λ none_wait. absurd (omega arith)), v.complete, v.fits)

write_bd-other :
    (m : ℕ → Bd) (b : Bd) (tail k : ℕ)
    → tail < max_bds
    → suc k < max_bds
    → write_bd m (s2mm_ring + tail * bd_size) b (rx_bd tail (suc k)) ≡ m (rx_bd tail (suc k))
unfolding write_bd
write_bd-other m b tail k h l = ground arith

-- The queue behind a packet that was taken, if nothing else touched it since.
after_packet :
    (d e : Dma) (n : ℕ)
    → IsRx d
    → waiting d ≡ suc n
    → AllReceived d d.rxtail (suc n)
    → SameRx (ethdma_rxsgcmplt xtemac_mtu d).1 e
    → IsRx e
      × (waiting e ≡ n)
      × AllReceived e e.rxtail n
      × (rx_packets e e.rxtail n ≡ rx_packets d (next_index max_bds d.rxtail) n)
after_packet d e n rx all_wait all same =
    let d1 = (ethdma_rxsgcmplt xtemac_mtu d).1 in
    let ready = waiting-Ready d n rx all_wait all in
    let taken = (Ready-Taken xtemac_mtu rx ready).1 in
    let (tail1, bytes1) = completed xtemac_mtu d ready in
    let next = next_index max_bds d.rxtail in
    let at_next : e.rxtail ≡ next = same.same_tail ∙ tail1 in
    let wait1 : waiting e ≡ waiting d1 =
      ap₂ (λ h t. (h + max_bds - t) % max_bds) same.same_head same.same_tail in
    let few : suc n < max_bds = omega (arith, all_wait) in
    let bds : (k : ℕ) → k < n → e.bds (rx_bd next k) ≡ d.bds (rx_bd next k) = λ k l.
      let a = rx_bd-next d.rxtail k rx.tail_in in
      ap (λ x. e.bds x) a
      ∙ same.same_bds ((d.rxtail + suc k) % max_bds) (omega arith)
      ∙ ap (λ (m : ℕ → Bd). m (rx_bd d.rxtail (suc k))) taken.cleared
      ∙ write_bd-other d.bds (clear_status (oldest d)) d.rxtail k rx.tail_in (omega (arith, l, few))
      ∙ ap (λ x. d.bds x) (sym a) in
    let all' = AllReceived-next d d.rxtail n rx.tail_in all in
    (
      record {
        head_in = subst (λ x. x < max_bds) (sym (same.same_head ∙ taken.same_head)) rx.head_in;
        tail_in = subst (λ x. x < max_bds) (sym at_next) (next_in d.rxtail rx.tail_in);
      },
      omega (arith, wait1, taken.waits),
      subst (λ t. AllReceived e t n) (sym at_next)
          (λ k l. subst (λ b. IsReceived b) (sym (bds k l)) (all' k l)),
      ap (λ t. rx_packets e t n) at_next
          ∙ rx_packets-same d e next n (next_in d.rxtail rx.tail_in) all' bds
              (λ x lo hi. same.same_bytes x lo hi ∙ ap (λ (m : ℕ → ℕ). m x) bytes1),
    )

module _ (lw : Lwip) where
  -- lwIP leaves the receive half of the driver alone.
  pub record KeepsRx : Type 0 where
    pub input-SameRx :
        (packet : List ℕ) (stack : lw.Stack) (d : Dma) → SameRx d (lw.input packet stack d).2

  -- lwIP was given a packet: it has no buffer of that length, or it takes the packet, or it refuses
  -- the packet and the buffer is freed.
  pub data Given (p : List ℕ) (s : Input lw) : Input lw → Type 0 where
    no_buffer :
        {stack : lw.Stack}
        → lw.pbuf_alloc (length p) s.stack ≡ (false, stack)
        → Given p s (record s { stack = stack; alloc_error = true })
    taken_in :
        {stack stack' : lw.Stack} {d : Dma}
        → lw.pbuf_alloc (length p) s.stack ≡ (true, stack)
        → lw.input p stack s.dma ≡ (true, stack', d)
        → Given p s (record s { stack = stack'; dma = d })
    refused :
        {stack stack' : lw.Stack} {d : Dma}
        → lw.pbuf_alloc (length p) s.stack ≡ (true, stack)
        → lw.input p stack s.dma ≡ (false, stack', d)
        → Given p s (record s { stack = lw.pbuf_free stack'; dma = d; input_error = true })

  take_packet-Given : (p : List ℕ) (s : Input lw) → Given p s (take_packet lw p s)
  unfolding take_packet
  take_packet-Given p s =
      let a = lw.pbuf_alloc (length p) s.stack in
      let i = lw.input p a.1 s.dma in
      elim (Bool-cases a.0) [
        | inr none_free ↦ rw none_free (no_buffer (λ j. (none_free j, a.1)))
        | inl free ↦ elim (Bool-cases i.0) [
          | inl ok ↦ rw (free, ok) (taken_in (λ j. (free j, a.1)) (λ j. (ok j, i.1, i.2)))
          | inr bad ↦ rw (free, bad) (refused (λ j. (free j, a.1)) (λ j. (bad j, i.1, i.2)))
        ]
      ]

  -- lwIP was given these packets, one after the other, each as the driver took it from the queue.
  pub data Delivered : List (List ℕ) → Input lw → Input lw → Type 0 where
    done : {s : Input lw} → Delivered [] s s
    next :
        {p : List ℕ} {ps : List (List ℕ)} {s r t : Input lw} (d : Dma)
        → Taken s.dma d
        → Given p (record s { dma = d }) r
        → Delivered ps r t
        → Delivered (p ∷ ps) s t

  module _ (keeps : KeepsRx) where
    take_packet-SameRx : (p : List ℕ) (s : Input lw) → SameRx s.dma (take_packet lw p s).dma
    unfolding take_packet
    take_packet-SameRx p s =
        let stack = (lw.pbuf_alloc (length p) s.stack).1 in
        let kept = keeps.input-SameRx p stack s.dma in
        let same = λ (t : Input lw). SameRx s.dma t.dma in
        if-both same (not (lw.pbuf_alloc (length p) s.stack).0) (SameRx-refl s.dma)
          (if-both same (lw.input p stack s.dma).0 kept kept)

    input_loop-Delivered :
        (n : ℕ) (s : Input lw)
        → IsRx s.dma
        → waiting s.dma ≡ n
        → AllReceived s.dma s.dma.rxtail n
        → Delivered (rx_packets s.dma s.dma.rxtail n) s (input_loop lw n s)
          × (waiting (input_loop lw n s).dma ≡ 0)
    unfolding input_loop
    input_loop-Delivered zero s rx all_wait all = (done, all_wait)
    input_loop-Delivered (suc n) s rx all_wait all =
        let d = (ethdma_rxsgcmplt xtemac_mtu s.dma).1 in
        let p = copy_out s.dma.bytes (oldest s.dma).buffer (oldest s.dma).trans_len in
        let t = take_packet lw p (record s { dma = d }) in
        let (out, taken) = Ready-Taken xtemac_mtu rx (waiting-Ready s.dma n rx all_wait all) in
        let (rx', wait', all', rest) =
          after_packet s.dma t.dma n rx all_wait all
            (take_packet-SameRx p (record s { dma = d })) in
        let (delivered, none_left) = input_loop-Delivered n t rx' wait' all' in
        let first : copy_out s.dma.bytes (s.dma.bds (rx_bd s.dma.rxtail 0)).buffer
              (s.dma.bds (rx_bd s.dma.rxtail 0)).trans_len
            ≡ p =
          ap (λ (b : Bd). copy_out s.dma.bytes b.buffer b.trans_len) (sym (oldest_lem s.dma rx)) in
        rw (out, input_loop)
          (
            subst (λ ps. Delivered ps s (input_loop lw n t)) (sym (ap₂ ◌∷◌ first (sym rest)))
                (next d taken (take_packet-Given p (record s { dma = d })) delivered),
            none_left,
          )

    -- Suppose that the default interface and its link are up, that the engine has written every
    -- packet that waits, each of at most 1536 bytes, into the receive buffer, and that lwIP, while it
    -- handles a packet, leaves the receive half of the driver alone. Then `lwip_ethInput` gives lwIP
    -- the bytes of all waiting packets for which it has a buffer, each once and the oldest first, and
    -- leaves the queue empty, also when lwIP has no buffer for a packet or refuses one; either is
    -- reported, and the buffer of a refused packet is freed.
    pub eth_input-Delivered :
        (stack : lw.Stack) (d : Dma)
        → lw.has_netif stack ≡ true
        → lw.netif_is_up stack ≡ true
        → lw.netif_is_link_up stack ≡ true
        → IsRx d
        → AllReceived d d.rxtail (waiting d)
        → Delivered
            (rx_packets d d.rxtail (waiting d))
            (new_input lw stack d)
            (eth_input lw stack d)
          × (waiting (eth_input lw stack d).dma ≡ 0)
    unfolding eth_input
    eth_input-Delivered stack d netif up link rx all =
        rw (netif, up, link, eth_rxqcount_lem rx)
          (input_loop-Delivered (waiting d) (new_input lw stack d) rx refl all)
