-- ===== src/Monitor/Tests.antt =====
-- Runs of the monitors.
use rpv_platforms_evt_driven.Base.{◌≡◌, refl, [], ◌∷◌, pos, true, get_or}
use rpv_platforms_evt_driven.Monitor.Temp.{temp_service, temp_m, tsensor_read, deg_c}
use rpv_platforms_evt_driven.Monitor.Mem.{rwmon32_m, writem32}

-- 25 degrees and a half
warm : temp_m (temp_service (λ ts. 0) 1 408) ≡ (pos 0, deg_c 25)
unfolding temp_m temp_service tsensor_read
warm = refl

stored : (rwmon32_m (λ s. (get_or s 0 0, true)) ((4 ∷ []) ∷ (7 ∷ []) ∷ []) (λ a. 0)).2 4 ≡ 7
unfolding rwmon32_m writem32
stored = refl
