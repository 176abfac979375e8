-- ===== src/Disk/Info.antt =====
-- `get_diskInfo` of src/arch/x86_64/pata.c and of src/arch/mb_le/storage.c. A text is the list of the
-- bytes that are written from the caller's buffer on, its NUL included.
use rpv_platforms_evt_driven.Base.{
  ℕ, ◌≤◌, ◌<◌, ◌≡◌, arith, ◌==◌, ltb, leb, if◌then◌else◌, ◌||◌, Option, none, some, List, [], ◌∷◌,
  ◌++◌, length, length-append,
}
use rpv_platforms_evt_driven.Disk.Ide.{
  ide_dev_letters, ide_no_device, ide_ata_device, ide_atapi_device, IdeDev, IdeBus, Ide,
}
use rpv_platforms_evt_driven.Disk.Storage.{max_disks}

-- `format_d` is what `_kernel_stringFormat` writes for `%d`.
module _ (format_d : ℕ → List ℕ) where
  -- The text on the kind of the device, by the cases of the switch.
  abbrev pub kind_text : IdeDev → List ℕ
  kind_text dev =
      if dev.ata_detect == ide_atapi_device
      then b'a' ∷ b't' ∷ b'a' ∷ b'p' ∷ b'i' ∷ []
      else if dev.ata_detect == ide_no_device
      then b'n' ∷ b'o' ∷ b't' ∷ b' ' ∷ b'd' ∷ b'e' ∷ b't' ∷ b'e' ∷ b'c' ∷ b't' ∷ b'e' ∷ b'd' ∷ []
      else if dev.ata_detect == ide_ata_device
      then (b'a' ∷ b't' ∷ b'a' ∷ b',' ∷ b' ' ∷ b'c' ∷ b'a' ∷ b'p' ∷ b'a' ∷ b'c' ∷ b'i' ∷ b't' ∷ b'y'
          ∷ b' ' ∷ [])
        ++ format_d dev.capacity
      else b'u' ∷ b'n' ∷ b'k' ∷ b'n' ∷ b'o' ∷ b'w' ∷ b'n' ∷ []

  abbrev pub ide_text : (did : ℕ) → IdeDev → List ℕ
  ide_text did dev =
      (b'I' ∷ b'D' ∷ b'E' ∷ b'#' ∷ [])
      ++ (format_d did
          ++ ((b':' ∷ b' ' ∷ b'b' ∷ b'u' ∷ b's' ∷ b' ' ∷ [])
              ++ (format_d dev.ide_bus
                  ++ ((b',' ∷ b' ' ∷ b'd' ∷ b'e' ∷ b'v' ∷ b'i' ∷ b'c' ∷ b'e' ∷ b' ' ∷ [])
                      ++ (format_d dev.bus_dev
                          ++ ((b',' ∷ b' ' ∷ []) ++ (kind_text dev ++ (0 ∷ []))))))))

  -- `get_diskInfo` of pata.c, into a buffer at `dsk_info`, which is 0 for NULL; `none` if nothing is
  -- written.
  unfoldable pub ide_info :
      (bus : IdeBus) (did dsk_info dsk_info_len : ℕ) → Ide bus → Option (List ℕ)
  ide_info bus did dsk_info dsk_info_len s =
      if leb ide_dev_letters did || ((dsk_info == 0) || ltb 256 dsk_info_len)
      then none
      else some (ide_text did (s.devs did))

  -- `get_diskInfo` of storage.c
  abbrev pub card_text : (did : ℕ) → List ℕ
  card_text did =
      (b's' ∷ b'd' ∷ b'c' ∷ b'a' ∷ b'r' ∷ b'd' ∷ b'#' ∷ [])
      ++ (format_d did
          ++ ((b',' ∷ b' ' ∷ b'v' ∷ b'o' ∷ b'l' ∷ b'u' ∷ b'm' ∷ b'e' ∷ b' ' ∷ [])
              ++ (format_d 0 ++ (0 ∷ []))))

  unfoldable pub card_info : (did dsk_info dsk_info_len : ℕ) → Option (List ℕ)
  card_info did dsk_info dsk_info_len =
      if (dsk_info == 0) || (leb max_disks did || ltb 256 dsk_info_len)
      then none
      else some (card_text did)

  -- A number takes one to eleven characters, as `%d` prints an `int`.
  pub record IsInt : Type 0 where
    pub some_digit : (n : ℕ) → 1 ≤ length (format_d n)
    pub few_digits : (n : ℕ) → length (format_d n) ≤ 11

  kind_text-length :
      (dev : IdeDev) → IsInt → (5 ≤ length (kind_text dev)) × (length (kind_text dev) ≤ 25)
  kind_text-length dev v =
      let lo = v.some_digit dev.capacity in
      let hi = v.few_digits dev.capacity in (ground (arith, lo), ground (arith, hi))

  ide_text-length :
      (did : ℕ) (dev : IdeDev)
      → IsInt
      → (30 ≤ length (ide_text did dev)) × (length (ide_text did dev) ≤ 80)
  ide_text-length did dev v =
      let (lo, hi) = kind_text-length dev v in
      let d = v.some_digit did in
      let b = v.some_digit dev.ide_bus in
      let n = v.some_digit dev.bus_dev in
      let d' = v.few_digits did in
      let b' = v.few_digits dev.ide_bus in
      let n' = v.few_digits dev.bus_dev in
      (grind (arith, length-append), grind (arith, length-append))

  card_text-length :
      (did : ℕ) → IsInt → (19 ≤ length (card_text did)) × (length (card_text did) ≤ 39)
  card_text-length did v =
      let d = v.some_digit did in
      let o = v.some_digit 0 in
      let d' = v.few_digits did in
      let o' = v.few_digits 0 in (grind (arith, length-append), grind (arith, length-append))

  -- Suppose that the kernel prints a number in one to eleven characters. For a disk that is in range
  -- and a buffer that is there, the text on an IDE device takes 30 to 80 bytes, that on the SD card 19
  -- to 39. Neither depends on the length that the caller gives for the buffer: it is written for every
  -- length up to 256, also for one that it does not fit into, and not at all for a greater length.
  pub info-length :
      (bus : IdeBus) (did dsk_info : ℕ) (s : Ide bus)
      → IsInt
      → did < ide_dev_letters
      → 0 < dsk_info
      → (text card : List ℕ) × ((len : ℕ)
          → ide_info bus did dsk_info len s ≡ (if ltb 256 len then none else some text))
        × (30 ≤ length text)
        × (length text ≤ 80)
        × ((len : ℕ) → card_info 0 dsk_info len ≡ (if ltb 256 len then none else some card))
        × (19 ≤ length card)
        × (length card ≤ 39)
  unfolding ide_info card_info
  info-length bus did dsk_info s v small there =
      let (lo, hi) = ide_text-length did (s.devs did) v in
      let (lo', hi') = card_text-length 0 v in
      (
        ide_text did (s.devs did),
        card_text 0,
        λ len. ground arith,
        lo,
        hi,
        λ len. ground arith,
        lo',
        hi',
      )
