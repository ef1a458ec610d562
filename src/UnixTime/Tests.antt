-- ===== src/UnixTime/Tests.antt =====
-- Half a second, and a day of 2023.
use int_platform_dpdk.Base.{◌*◌, ◌/◌, ◌^◌, ◌≡◌, ◌↔◌, refl, arith}
use int_platform_dpdk.Outcome.{ok, fault, signed_overflow}
use int_platform_dpdk.UnixTime.{convert_to_unix_ns, unix_ns, converts_iff}

present_test : convert_to_unix_ns (1700000000 * 2 ^ 32) ≡ fault signed_overflow
unfolding convert_to_unix_ns
present_test = refl

converts_iff_example :
    (convert_to_unix_ns 500000000 ≡ ok (unix_ns 500000000)) ↔ (500000000 / 2 ^ 32 ≡ 0)
converts_iff_example = converts_iff 500000000 (omega arith)
