-- ===== src/Monitor/Mem.antt =====
-- src/arch/mb_le/sys/rwmon32.c: the command that reads and writes words of the memory.
use rpv_platforms_evt_driven.Base.{
  ℕ, ◌%◌, ◌^◌, ◌≡◌, arith, ◌==◌, if◌then◌else◌, Bool, not, List, [], ◌∷◌, ℤ, pos, negsuc,
}

pub data MonOut : Type 0 where
  addr_required addr_invalid write_addr_invalid value_invalid memory_write : MonOut
  word : (addr val : ℕ) → MonOut

-- `strtoul` with base 16, of the C library: the number, and whether the whole text was read.
module _ (strtoul : List ℕ → ℕ × Bool) where
  -- `readm32`, over the words of the memory.
  unfoldable pub readm32 : (addr_s : List ℕ) (m : ℕ → ℕ) → ℤ × MonOut
  readm32 addr_s m =
      let (addr, whole) = strtoul addr_s in
      if not whole then (negsuc 0, addr_invalid) else (pos 0, word addr (m addr))

  -- `writem32`
  unfoldable pub writem32 : (addr_s val_s : List ℕ) (m : ℕ → ℕ) → ℤ × MonOut × (ℕ → ℕ)
  writem32 addr_s val_s m =
      let (addr, addr_whole) = strtoul addr_s in
      let (addr_val, val_whole) = strtoul val_s in
      if not addr_whole
      then (negsuc 0, write_addr_invalid, m)
      else if not val_whole
      then (negsuc 0, value_invalid, m)
      else (pos 0, memory_write, λ a. if a == addr then addr_val % 2 ^ 32 else m a)

  -- `rwmon32_m`, over the arguments behind the name of the command.
  unfoldable pub rwmon32_m : List (List ℕ) → (m : ℕ → ℕ) → ℤ × MonOut × (ℕ → ℕ)
  rwmon32_m [] m = (negsuc 0, addr_required, m)
  rwmon32_m (addr_s ∷ []) m = let (ret, out) = readm32 addr_s m in (ret, out, m)
  rwmon32_m (addr_s ∷ val_s ∷ more) m = writem32 addr_s val_s m

  -- After a write to an address, a read of an address prints the number that was written if both are
  -- the same, and what the memory held before if they are not, or if a number of the write is not
  -- read as a whole; the second command changes nothing.
  pub rwmon32_m-write :
      (addr_s val_s at_s : List ℕ) (more : List (List ℕ)) (m : ℕ → ℕ)
      → let (addr, addr_whole) = strtoul addr_s in
        let (val, val_whole) = strtoul val_s in
        let (at, at_whole) = strtoul at_s in
        let (ret, out, m') = rwmon32_m (addr_s ∷ val_s ∷ more) m in
        rwmon32_m (at_s ∷ []) m' ≡ (
          if at_whole then pos 0 else negsuc 0,
          if at_whole
              then word at (
                  if addr_whole
                  then if val_whole then if at == addr then val % 2 ^ 32 else m at else m at
                  else m at)
              else addr_invalid,
          m',
        )
  unfolding rwmon32_m readm32 writem32
  rwmon32_m-write addr_s val_s at_s more m = ground arith
