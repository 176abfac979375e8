-- ===== src/Fat/Interface.antt =====
-- What src/fatfs/fat.c calls of FatFs, which is not part of the repository.
use rpv_platforms_evt_driven.Base.{ℕ, List}

-- The results that fat.c tells apart.
pub data FResult : Type 0 where
  fr_ok fr_denied fr_disk_err fr_no_path fr_no_file : FResult
  fr_other : ℕ → FResult

-- The calls on a volume and its files, over the state of a mounted volume.
pub record FatFs : Type 1 where
  pub Volume : Type 0
  pub Fil : Type 0
  pub f_mount : (path : List ℕ) → Volume → FResult × Volume
  pub f_unmount : (path : List ℕ) → Volume → FResult × Volume
  pub f_chdir : (path : List ℕ) → Volume → FResult × Volume
  pub f_mkdir : (path : List ℕ) → Volume → FResult × Volume
  pub f_unlink : (path : List ℕ) → Volume → FResult × Volume
  pub f_open : Fil → (path : List ℕ) → (mode : ℕ) → Volume → FResult × Fil × Volume
  pub f_close : Fil → Volume → FResult × Fil × Volume
  pub f_size : Fil → ℕ
  pub f_read : Fil → (nread : ℕ) → Volume → FResult × List ℕ × Fil × Volume
  pub f_write : Fil → List ℕ → Volume → FResult × ℕ × Fil × Volume
  -- The answer to an object that is not valid, such as the null pointer.
  pub invalid_object : ℕ
