-- ===== src/Sleep/Tests.antt =====
-- A sleep of 2.5 seconds that is interrupted once.
use int_platform_dpdk.Base.{
  ℕ, ◌*◌, ◌≡◌, refl, List, [], ◌∷◌, some, ◌==◌, length, if◌then◌else◌, arith,
}
use int_platform_dpdk.Sleep.{
  Timespec, Slept, slept, interrupted, retry, delay_usecs, IsNanosleep, Uninterrupted, Asked,
  Starts, Resumes, delay_usecs_ends,
}

-- The first call is interrupted at the end of its time.
abbrev once_interrupted : ℕ → Timespec → Slept
once_interrupted n t = if n == 0 then interrupted (record { tv_sec = 0; tv_nsec = 0 }) else slept

once_interrupted-IsNanosleep : IsNanosleep once_interrupted
once_interrupted-IsNanosleep n t left h = ground arith

second-Uninterrupted : Uninterrupted once_interrupted 1
second-Uninterrupted t left h = cc

delay_usecs_test :
    delay_usecs once_interrupted 2 2500000
    ≡ some (record { tv_sec = 2; tv_nsec = 500000000 } ∷ record { tv_sec = 0; tv_nsec = 0 } ∷ [])
unfolding delay_usecs retry
delay_usecs_test = refl

delay_usecs_ends_example :
    (ts : List Timespec) × (delay_usecs once_interrupted 2 2500000 ≡ some ts)
    × ((length ts == 0) ≡ (2500000 == 0))
    × Asked (2500000 * 1000) ts
    × Starts (2500000 * 1000) ts
    × Resumes once_interrupted 0 ts
delay_usecs_ends_example =
    delay_usecs_ends once_interrupted once_interrupted-IsNanosleep 2500000 1 second-Uninterrupted
