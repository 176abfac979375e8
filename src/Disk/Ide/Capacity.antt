-- ===== src/Disk/Ide/Capacity.antt =====
-- src/arch/x86_64/pata.c: the capacity that `disk_io` works out from the identity words.
use rpv_platforms_evt_driven.Base.{ℕ, ◌+◌, ◌-◌, ◌*◌, ◌%◌, ◌^◌, ◌<◌, ◌≡◌, arith, ltb, if◌then◌else◌}
use rpv_platforms_evt_driven.Disk.Ide.{cap_sectors}

-- For two identity words of 16 bits the capacity in bytes is that of the sectors they say below 2 ^ 31
-- sectors; from there on it is 2 ^ 64 - 2 ^ 41 more.
pub cap_sectors_lem :
    (hi lo : ℕ)
    → hi < 2 ^ 16
    → lo < 2 ^ 16
    → cap_sectors hi lo * 512 % 2 ^ 64 ≡ (
        if ltb hi (2 ^ 15)
        then (hi * 2 ^ 16 + lo) * 512
        else 2 ^ 64 - 2 ^ 41 + (hi * 2 ^ 16 + lo) * 512)
unfolding cap_sectors
cap_sectors_lem hi lo h l = ground arith
