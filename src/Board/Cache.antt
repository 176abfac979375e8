-- ===== src/Board/Cache.antt =====
-- src/arch/mb_le/sys/xcache.c, over the routines of the assembly files.
use rpv_platforms_evt_driven.Base.{ℕ, List, ◌∷◌}

pub data CacheEffect : Type 0 where
  l2_flush_range l2_invalidate_range l1_invalidate_range : (addr len : ℕ) → CacheEffect

-- `_xdcache_flush`; newest effect first.
unfoldable pub xdcache_flush : (mem len : ℕ) → List CacheEffect → List CacheEffect
xdcache_flush mem len t = l1_invalidate_range mem len ∷ l2_flush_range mem len ∷ t

-- `_xdcache_invalidate`
unfoldable pub xdcache_invalidate : (mem len : ℕ) → List CacheEffect → List CacheEffect
xdcache_invalidate mem len t = l1_invalidate_range mem len ∷ l2_invalidate_range mem len ∷ t
