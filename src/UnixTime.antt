-- ===== src/UnixTime.antt =====
-- int_t4p4s_dpdk/p4int_influxdb/p4int.cc, convertToUnixNs: a timestamp of seconds in the upper and
-- nanoseconds in the lower 32 bits, as nanoseconds. The multiplication is one of `long`, in which an
-- overflow is undefined.
mod Tests
use int_platform_dpdk.Base.{
  ℕ, ◌+◌, ◌*◌, ◌/◌, ◌%◌, ◌^◌, ◌<◌, ◌≡◌, ◌↔◌, refl, ltb, lt→ltb, ap, ◌∙◌, if◌then◌else◌, arith,
  Bool-cases, inl, inr,
}
use int_platform_dpdk.Outcome.{Outcome, ok, ok-injective, fault, signed_overflow}
use int_platform_dpdk.Words.{u32}

unfoldable pub convert_to_unix_ns : ℕ → Outcome ℕ
convert_to_unix_ns ts_ns =
    let sec = u32 (ts_ns / 2 ^ 32) in
    let nanosec = u32 ts_ns in
    if ltb (sec * 100000000000 + nanosec) (2 ^ 63)
    then ok (sec * 100000000000 + nanosec)
    else fault signed_overflow

-- What the time is in nanoseconds.
unfoldable pub unix_ns : ℕ → ℕ
unix_ns ts_ns = ts_ns / 2 ^ 32 * 1000000000 + ts_ns % 2 ^ 32

-- A timestamp of 64 bits is converted to its nanoseconds if and only if its seconds are 0.
pub converts_iff :
    (ts_ns : ℕ)
    → ts_ns < 2 ^ 64
    → (convert_to_unix_ns ts_ns ≡ ok (unix_ns ts_ns)) ↔ (ts_ns / 2 ^ 32 ≡ 0)
unfolding convert_to_unix_ns unix_ns
converts_iff ts_ns small = (
  λ h. elim (Bool-cases (ltb (u32 (ts_ns / 2 ^ 32) * 100000000000 + u32 ts_ns) (2 ^ 63))) [
    | inl fits ↦ omega (arith, small, ok-injective (rw fits at h))
    | inr wraps ↦
        let never : fault signed_overflow ≡ ok (unix_ns ts_ns) = rw wraps at h in absurd (cc)
  ],
  λ zero.
      let fits : u32 (ts_ns / 2 ^ 32) * 100000000000 + u32 ts_ns < 2 ^ 63 = omega (arith, zero) in
      rw (lt→ltb _ _ fits) (ap ok (omega (arith, zero, small))),
)
