-- ===== src/Packet/Fields.antt =====
-- What the loads return inside the buffer, and what they are on the wire.
use int_platform_dpdk.Base.{ℕ, zero, suc, ◌+◌, ◌*◌, ◌≤◌, ◌<◌, ◌≡◌, refl, arith, lt→ltb}
use native.Mathlib.Nat.{add_assoc}
use int_platform_dpdk.Outcome.{ok}
use int_platform_dpdk.Words.Endian.{ntoh64, ntoh64-little_endian}
use int_platform_dpdk.Packet.{
  Buffer, pkt_buf_size, load8, load_le, IntInflux, IntMeta, load_int_influx, load_int_meta,
}

-- The bytes at `off`, read as a little-endian number.
unfoldable pub le_at : ℕ → Buffer → ℕ → ℕ
le_at zero buff off = 0
le_at (suc k) buff off = buff off + 256 * le_at k buff (off + 1)

-- The bytes at `off`, read as a number in network order.
unfoldable pub be64_at : Buffer → ℕ → ℕ
be64_at buff off =
    ((((((buff off * 256 + buff (off + 1)) * 256 + buff (off + 2)) * 256 + buff (off + 3)) * 256
                + buff (off + 4))
              * 256
            + buff (off + 5))
          * 256
        + buff (off + 6))
      * 256
    + buff (off + 7)

load8-ok : (buff : Buffer) (i : ℕ) → i < pkt_buf_size → load8 buff i ≡ ok (buff i)
unfolding load8
load8-ok buff i h = rw (lt→ltb i pkt_buf_size h)

pub load_le-ok :
    (k : ℕ) (buff : Buffer) (off : ℕ)
    → off + k ≤ pkt_buf_size
    → load_le k buff off ≡ ok (le_at k buff off)
unfolding load_le le_at
load_le-ok zero buff off h = refl
load_le-ok (suc k) buff off h =
    rw (load8-ok buff off (omega arith)) (rw (load_le-ok k buff (off + 1) (omega arith)))

-- The bytes of a buffer.
abbrev pub IsBytes : Buffer → Type 0
IsBytes buff = (i : ℕ) → buff i < 256

pub ntoh64-le_at :
    (buff : Buffer) (off : ℕ) → IsBytes buff → ntoh64 (le_at 8 buff off) ≡ be64_at buff off
unfolding le_at be64_at
ntoh64-le_at buff off h = simp add_assoc (
    ntoh64-little_endian (buff off) (buff (off + 1)) (buff (off + 2)) (buff (off + 3))
      (buff (off + 4)) (buff (off + 5)) (buff (off + 6)) (buff (off + 7)) (h off) (h (off + 1))
      (h (off + 2)) (h (off + 3)) (h (off + 4)) (h (off + 5)) (h (off + 6)) (h (off + 7)))

abbrev pub int_influx_at : Buffer → ℕ → IntInflux
int_influx_at buff off = record {
  src_addr = le_at 4 buff off;
  dst_addr = le_at 4 buff (off + 4);
  ingress_port_id = le_at 2 buff (off + 8);
  egress_port_id = le_at 2 buff (off + 10);
  meta_len = le_at 1 buff (off + 12);
  hop_meta_len = le_at 1 buff (off + 13);
  ndk_tstamp = le_at 8 buff (off + 16);
  delay = le_at 8 buff (off + 24);
  seq = le_at 4 buff (off + 32);
}

abbrev pub int_meta_at : Buffer → ℕ → IntMeta
int_meta_at buff off = record {
  switch_id = le_at 4 buff off;
  ingress_port_id = le_at 2 buff (off + 4);
  egress_port_id = le_at 2 buff (off + 6);
  ingress_tstamp = le_at 8 buff (off + 8);
  egress_tstamp = le_at 8 buff (off + 16);
}

pub load_int_influx-ok :
    (buff : Buffer) (off : ℕ)
    → off + 36 ≤ pkt_buf_size
    → load_int_influx buff off ≡ ok (int_influx_at buff off)
unfolding load_int_influx
load_int_influx-ok buff off h = rw (
  load_le-ok 4 buff off (omega arith),
  load_le-ok 4 buff (off + 4) (omega arith),
  load_le-ok 2 buff (off + 8) (omega arith),
  load_le-ok 2 buff (off + 10) (omega arith),
  load_le-ok 1 buff (off + 12) (omega arith),
  load_le-ok 1 buff (off + 13) (omega arith),
  load_le-ok 8 buff (off + 16) (omega arith),
  load_le-ok 8 buff (off + 24) (omega arith),
  load_le-ok 4 buff (off + 32) (omega arith),
)

pub load_int_meta-ok :
    (buff : Buffer) (off : ℕ)
    → off + 24 ≤ pkt_buf_size
    → load_int_meta buff off ≡ ok (int_meta_at buff off)
unfolding load_int_meta
load_int_meta-ok buff off h = rw (
  load_le-ok 4 buff off (omega arith),
  load_le-ok 2 buff (off + 4) (omega arith),
  load_le-ok 2 buff (off + 6) (omega arith),
  load_le-ok 8 buff (off + 8) (omega arith),
  load_le-ok 8 buff (off + 16) (omega arith),
)
