-- ===== src/Ring/Spsc/Safety.antt =====
-- What holds of the ring in every interleaving of one producer and one consumer.
use int_platform_dpdk.Base.{ℕ, ◌+◌, ◌^◌, ◌<◌, ◌≡◌, ◌≢◌, refl, sym, ◌∙◌, ◌++◌, arith, length}
use int_platform_dpdk.Ring.{empty}
use int_platform_dpdk.Ring.Window.{contents, length-window}
use int_platform_dpdk.Ring.Spsc.{
  Producer, may_write, Consumer, may_read, System, Step, produce, consume, start, index, Reach,
  here, later,
}
use int_platform_dpdk.Ring.Spsc.Inv.{Inv, Produce-Inv, Consume-Inv, Inv-Past, tail-ne-head}

module _ {A : Type 0} (size : ℕ) (nonempty : 0 < size) (small : size < 2 ^ 64) where
  Inv-start : (cells : ℕ → A) → Inv size (start cells).shared Producer.idle Consumer.idle
  unfolding empty index
  Inv-start cells = record {
    head_at = refl;
    tail_at = refl;
    tail_seen = omega arith;
    fits = omega arith;
    head_seen = omega arith;
    behind = omega arith;
    fifo = refl;
    producing = tt;
    consuming = tt;
  }

  Step-Inv :
      {s t : System A}
      → Step size s t
      → Inv size s.shared s.producer s.consumer
      → Inv size t.shared t.producer t.consumer
  Step-Inv (produce st) inv = Produce-Inv size nonempty small st inv
  Step-Inv (consume st) inv = Consume-Inv size nonempty small st inv

  Reach-Inv :
      {cells : ℕ → A} {s : System A} → Reach size cells s → Inv size s.shared s.producer s.consumer
  Reach-Inv {cells} here = Inv-start cells
  Reach-Inv (later r st) = Step-Inv st (Reach-Inv r)

  -- For an array of `size` cells, 0 < size < 2 ^ 64: in every state that the steps of one producer and
  -- one consumer reach, in whatever order they interleave, the values popped so far, followed by what
  -- the ring holds between its two indices, are the values pushed so far, in order; and the ring
  -- holds fewer than `size`.
  pub pushed-eq-popped_contents :
      {cells : ℕ → A} {s : System A}
      → Reach size cells s
      → (s.shared.pushed ≡ s.shared.popped ++ contents size s.shared.memory)
        × (length (contents size s.shared.memory) < size)
  pushed-eq-popped_contents {s = s} r =
      let inv = Reach-Inv r in
      let past = Inv-Past size nonempty small inv in
      (
        rw (past.apart) inv.fifo,
        rw (past.apart, length-window)
            (omega (arith, inv.fits, inv.tail_seen, inv.behind, inv.head_seen)),
      )

  -- For an array of `size` cells, 0 < size < 2 ^ 64: in no reachable state is `push` about to write
  -- the cell that `pop` is about to read, and both accesses lie inside the array.
  pub no_race :
      {cells : ℕ → A} {s : System A} {v : A} {h t : ℕ}
      → Reach size cells s
      → s.producer ≡ may_write v h
      → s.consumer ≡ may_read t
      → (h ≢ t) × (h < size) × (t < size)
  no_race {s = s} {h = h} {t = t} r p c =
      let inv = Reach-Inv r in
      let past = Inv-Past size nonempty small inv in
      let writing : (h ≡ s.shared.memory.head)
          × (length s.shared.pushed + 1 < s.shared.seen_tail + size) =
        rw p at inv.producing in
      let reading : (t ≡ s.shared.memory.tail) × (length s.shared.popped < s.shared.seen_head) =
        rw c at inv.consuming in
      (
        (λ e. tail-ne-head size nonempty small inv reading.1 (sym reading.0 ∙ sym e ∙ writing.0)),
        rw (writing.0) past.head_in,
        rw (reading.0) past.tail_in,
      )
