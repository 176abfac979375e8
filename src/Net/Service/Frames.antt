-- ===== src/Net/Service/Frames.antt =====
-- Frames that the DMA engine writes, and the queue of the newest nine of them.
use rpv_platforms_evt_driven.Base.{
  ℕ, suc, ◌+◌, ◌*◌, ◌-◌, ◌≤◌, ◌<◌, ◌≡◌, refl, sym, ap, ap₂, ◌∙◌, arith, leb, if◌then◌else◌, true,
  List, [], ◌∷◌, ◌++◌, append-nil, append_assoc, drop, length, length-append, dec_lt,
}
use rpv_platforms_evt_driven.Dma.Bd.{bd_size, write_bd}
use rpv_platforms_evt_driven.Dma.State.{Dma, max_bds, s2mm_ring, copy_in}
use rpv_platforms_evt_driven.Dma.Rx.{on_ethdma_rxirq}
use rpv_platforms_evt_driven.Net.Mac.{xtemac_mtu}

-- The descriptor that the engine fills next.
abbrev pub head_bd : Dma → ℕ
head_bd d = s2mm_ring + d.rxhead * bd_size

-- The engine writes a frame.
unfoldable pub fill_bd : List ℕ → Dma → Dma
fill_bd frame d =
    let b = d.bds (head_bd d) in
    record d {
      bds = write_bd d.bds (head_bd d) (record b { cmplt = true; trans_len = length frame });
      bytes = copy_in d.bytes b.buffer frame;
    }

-- Frames, each with the interrupt that reports it.
unfoldable pub receive_all : (sr : ℕ) → List (List ℕ) → Dma → Dma
receive_all sr [] d = d
receive_all sr (frame ∷ frames) d = receive_all sr frames (on_ethdma_rxirq sr (fill_bd frame d))

-- A queue of the newest nine frames.
unfoldable pub push_frame : List (List ℕ) → List ℕ → List (List ℕ)
push_frame q frame = let q' = q ++ (frame ∷ []) in if leb max_bds (length q') then drop 1 q' else q'

unfoldable pub push_frames : List (List ℕ) → List (List ℕ) → List (List ℕ)
push_frames q [] = q
push_frames q (frame ∷ frames) = push_frames (push_frame q frame) frames

-- Frames that fit a descriptor's buffer.
pub data AllFit : List (List ℕ) → Type 0 where
  none_more_fit : AllFit []
  fit :
      {frame : List ℕ} {frames : List (List ℕ)}
      → length frame ≤ xtemac_mtu
      → AllFit frames
      → AllFit (frame ∷ frames)

pub length-push : (q : List (List ℕ)) (frame : List ℕ) → length (q ++ (frame ∷ [])) ≡ suc (length q)
length-push q frame = omega (arith, length-append q (frame ∷ []))

pub length-drop_push :
    (q : List (List ℕ)) (frame : List ℕ) → length (drop 1 (q ++ (frame ∷ []))) ≡ length q
length-drop_push [] frame = refl
length-drop_push (p ∷ q) frame = length-push q frame

drop-drop_push :
    (n : ℕ) (q : List (List ℕ)) (frame : List ℕ) (frames : List (List ℕ))
    → 0 < length q
    → drop n (drop 1 (q ++ (frame ∷ [])) ++ frames) ≡ drop (suc n) (q ++ (frame ∷ frames))
drop-drop_push n [] frame frames h = absurd (omega arith)
drop-drop_push n (p ∷ q) frame frames h = ap (drop n) (append_assoc q (frame ∷ []) frames)

-- Nine frames at most stay, the newest ones.
pub push_frames-drop :
    (q frames : List (List ℕ))
    → length q ≤ 9
    → push_frames q frames ≡ drop (length q + length frames - 9) (q ++ frames)
unfolding push_frames push_frame
push_frames-drop q [] few =
    let none_dropped : length q + 0 - 9 ≡ 0 = omega (arith, few) in
    sym (ap (λ n. drop n (q ++ [])) none_dropped ∙ append-nil q)
push_frames-drop q (frame ∷ frames) few =
    let len = length-push q frame in
    elim (dec_lt (length q) 9) [
      | yes room ↦
          let kept : push_frame q frame ≡ q ++ (frame ∷ []) = ground (arith, len) in
          ap (λ p. push_frames p frames) kept
          ∙ push_frames-drop (q ++ (frame ∷ [])) frames (omega (arith, len, room))
          ∙ ap₂ drop (omega (arith, len)) (append_assoc q (frame ∷ []) frames)
      | no full ↦
          let len' = length-drop_push q frame in
          let left = length (drop 1 (q ++ (frame ∷ []))) + length frames - 9 in
          let counts : suc left ≡ length q + length (frame ∷ frames) - 9 =
            omega (arith, len', full, few) in
          let dropped : push_frame q frame ≡ drop 1 (q ++ (frame ∷ [])) = ground (arith, len) in
          ap (λ p. push_frames p frames) dropped
          ∙ push_frames-drop (drop 1 (q ++ (frame ∷ []))) frames (omega (arith, len', few))
          ∙ drop-drop_push left q frame frames (omega (arith, full))
          ∙ ap (λ n. drop n (q ++ (frame ∷ frames))) counts
    ]
