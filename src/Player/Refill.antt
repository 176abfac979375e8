-- ===== src/Player/Refill.antt =====
-- One call of the service after a half was played: the states before and after it.
use rpv_platforms_evt_driven.Base.{
  ℕ, ◌+◌, ◌-◌, ◌%◌, ◌^◌, ◌≤◌, ◌<◌, ◌≡◌, ◌⊎◌, inl, inr, refl, ap, ap₂, ◌∙◌, arith, Bool, true, false,
  not, ltb, if◌then◌else◌, List, take, drop, length, Option, some,
}
use rpv_platforms_evt_driven.Dma.State.{copy_in, copy_out}
use rpv_platforms_evt_driven.Dma.Sound.{sbdma_sgcmplt, fill}
use rpv_platforms_evt_driven.Fat.Interface.{FatFs}
use rpv_platforms_evt_driven.Fat.Table.{fat_fread}
use rpv_platforms_evt_driven.Player.Service.{
  Sb, sb_wait, sb_write, note, note_after, block_signals, unblock_signals, fill_chunk, refill_case,
  write_case, wait_case, sb_service, buff_chunk, silence,
}
use rpv_platforms_evt_driven.Player.Chunks.{
  smaller, smaller_lem, smaller-le, take-smaller, drop-smaller, copy_out-fill, copy_out-elsewhere,
}
use rpv_platforms_evt_driven.Player.Hear.{half_addr, signalled, ReadsFiles, IsPlaying}
use rpv_platforms_evt_driven.Player.Round.{padded, fat_fread-IsOpenAt}

pub not-not : (half : Bool) → not (not half) ≡ half
not-not true = refl
not-not false = refl

-- The buffer after a refill of one half.
pub refilled-half :
    (half : Bool) (m : ℕ → ℕ) (bs : List ℕ)
    → length bs ≤ buff_chunk
    → let a = half_addr half in
      let m' = fill (copy_in m a bs) (a + length bs) silence (buff_chunk - length bs) in
      (copy_out m' a buff_chunk ≡ padded bs)
      × (copy_out m' (half_addr (not half)) buff_chunk
          ≡ copy_out m (half_addr (not half)) buff_chunk)
refilled-half half m bs fits =
    let n = buff_chunk - length bs in
    let all : buff_chunk ≡ length bs + n = omega (arith, fits) in
    (
      ap
            (λ k.
              copy_out (fill (copy_in m (half_addr half) bs) (half_addr half + length bs) silence n)
                (half_addr half) k)
            all
          ∙ copy_out-fill m (half_addr half) bs silence n,
      copy_out-elsewhere m (half_addr half) bs silence n (half_addr (not half)) buff_chunk
          (apart half),
    )
  where
    apart :
        (h : Bool) (x : ℕ)
        → half_addr (not h) ≤ x
        → x < half_addr (not h) + buff_chunk
        → (x < half_addr h) ⊎ (half_addr h + (length bs + (buff_chunk - length bs)) ≤ x)
    apart false x p q = inr (omega (arith, fits))
    apart true x p q = inl (omega arith)

module _ (ff : FatFs) where
  -- The state in which `case SB_WAIT` calls the service on a completed half.
  abbrev pub completed : Sb ff → Sb ff
  completed s = record (note ff block_signals s) {
    sb_reg = sb_write;
    playcount = (s.playcount + 2 ^ 32 - 1) % 2 ^ 32;
  }

  pub service-completed :
      (sr : ℕ) (s : Sb ff)
      → s.sb_reg ≡ sb_wait
      → s.dma.sbdma_buserr ≡ false
      → s.dma.sbdma_cmplt ≡ true
      → sb_service ff 4 (signalled sr) s
        ≡ note_after ff unblock_signals
            (write_case ff (sb_service ff 2 (signalled sr)) (completed s))
  unfolding sb_service wait_case
  service-completed sr s waits fine done = rw (waits, fine, done) refl

  -- The state in which `case SB_WRITE` has read into the buffer that it was handed.
  abbrev pub was_read : (buffer : ℕ) → Sb ff → Sb ff
  was_read buffer s =
      let dma = (sbdma_sgcmplt buff_chunk s.dma).1 in
      let readsize = if ltb buff_chunk s.playsize then buff_chunk else s.playsize in
      let (bytes, fat) = fat_fread ff s.fd readsize s.fat in
      record s {
        sb_reg = sb_wait;
        fat = fat;
        playsize = (s.playsize + 2 ^ 32 - length bytes) % 2 ^ 32;
        dma = record dma { bytes = copy_in dma.bytes buffer bytes };
      }

  abbrev pub chunk_read : Sb ff → List ℕ
  chunk_read s =
      let readsize = if ltb buff_chunk s.playsize then buff_chunk else s.playsize in
      (fat_fread ff s.fd readsize s.fat).0

  pub write_case-buffer :
      (again : Sb ff → Option (Sb ff)) (buffer : ℕ) (s : Sb ff)
      → (sbdma_sgcmplt buff_chunk s.dma).0 ≡ some buffer
      → write_case ff again s
        ≡ fill_chunk ff again buffer (length (chunk_read s)) (was_read buffer s)
  unfolding write_case refill_case
  write_case-buffer again buffer s out = rw out refl

  module _ (reads : ReadsFiles ff) where
    -- What `case SB_WRITE` reads while the service plays: the next chunk of the samples.
    pub chunk_read_lem :
        {half : Bool} {x y rest : List ℕ} {count : ℕ} {s : Sb ff}
        → IsPlaying ff reads half x y rest count s
        → chunk_read s ≡ take buff_chunk rest
    chunk_read_lem {s = s} v =
        let n = if ltb buff_chunk s.playsize then buff_chunk else s.playsize in
        (fat_fread-IsOpenAt ff reads s.fd v.left n s.fat v.is_open_at).0
        ∙ ap (λ k. take k v.left) (smaller_lem buff_chunk s.playsize)
        ∙ take-smaller buff_chunk s.playsize v.left
        ∙ ap (λ xs. take buff_chunk xs) v.samples_left

    -- What is left to play after it.
    pub samples_left_lem :
        {half : Bool} {x y rest : List ℕ} {count : ℕ} {s : Sb ff}
        → (v : IsPlaying ff reads half x y rest count s)
        → let n = if ltb buff_chunk s.playsize then buff_chunk else s.playsize in
          let size = (s.playsize + 2 ^ 32 - length (chunk_read s)) % 2 ^ 32 in
          (take size (drop n v.left) ≡ drop buff_chunk rest) × (size < 2 ^ 32)
    samples_left_lem {s = s} v =
        let n = if ltb buff_chunk s.playsize then buff_chunk else s.playsize in
        let k = smaller buff_chunk s.playsize in
        let n_is : n ≡ k = smaller_lem buff_chunk s.playsize in
        let bytes : chunk_read s ≡ take k v.left =
          (fat_fread-IsOpenAt ff reads s.fd v.left n s.fat v.is_open_at).0
          ∙ ap (λ j. take j v.left) n_is in
        let read : length (chunk_read s) ≡ length (take k v.left) = ap (λ bs. length bs) bytes in
        let size : (s.playsize + 2 ^ 32 - length (chunk_read s)) % 2 ^ 32
            ≡ s.playsize - length (take k v.left) =
          omega (arith, read, smaller-le buff_chunk s.playsize v.left, v.size_bound) in
        (
          ap₂ (λ a j. take a (drop j v.left)) size n_is
              ∙ drop-smaller buff_chunk s.playsize v.left
              ∙ ap (λ xs. drop buff_chunk xs) v.samples_left,
          omega arith,
        )
