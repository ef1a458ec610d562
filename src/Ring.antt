-- ===== src/Ring.antt =====
-- int_t4p4s_dpdk/p4int_influxdb/ringbuffer.h: the ring between the packet loop and one sender.
-- `ring` is the array `ring_`, `head` and `tail` are the two atomics. Each method here is the whole
-- method run with no other thread between its steps; Ring/Spsc takes the steps apart.
pub mod Arith
pub mod Window
pub mod Refine
pub mod Spsc
mod Tests
use int_platform_dpdk.Base.{ℕ, ◌+◌, ◌%◌, ◌^◌, Bool, true, false, ◌==◌, if◌then◌else◌, update}

pub record Ring (A : Type 0) : Type 0 where
  pub ring : ℕ → A
  pub head : ℕ
  pub tail : ℕ

-- `size_t next(size_t current)`, its addition modulo 2 ^ 64.
unfoldable pub next : ℕ → ℕ → ℕ
next size current = (current + 1) % 2 ^ 64 % size

-- `ringbuffer()`: the cells hold whatever `T`'s constructor leaves there.
unfoldable pub empty : {A : Type 0} → (ℕ → A) → Ring A
empty cells = record { ring = cells; head = 0; tail = 0 }

-- `false` is a full ring, which stays as it is.
unfoldable pub push : {A : Type 0} → ℕ → Ring A → A → Bool × Ring A
unfolding next
push size r value =
    let next_head = next size r.head in
    if next_head == r.tail
    then (false, r)
    else (true, record r { ring = update r.ring r.head value; head = next_head })

-- `value` is the reference argument: what it holds before, and after, beside the result.
unfoldable pub pop : {A : Type 0} → ℕ → Ring A → A → Bool × A × Ring A
unfolding next
pop size r value =
    if r.tail == r.head
    then (false, value, r)
    else (true, r.ring r.tail, record r { tail = next size r.tail })
