-- ===== src/Words/Tests.antt =====
-- The conversion of byte orders at concrete words.
use int_platform_dpdk.Base.{◌≡◌, refl, [], ◌∷◌}
use int_platform_dpdk.Words.Endian.{little_endian, ntohl, ntoh64}

-- 0x01020304.
ntohl_test : ntohl 16909060 ≡ 67305985
unfolding ntohl
ntohl_test = refl

-- 0x0102030405060708.
ntoh64_test : ntoh64 (little_endian (1 ∷ 2 ∷ 3 ∷ 4 ∷ 5 ∷ 6 ∷ 7 ∷ 8 ∷ [])) ≡ 72623859790382856
unfolding ntoh64
ntoh64_test = refl
