-- ===== src/Exporter/Fresh.antt =====
-- The exporter that the constructor makes.
use int_platform_dpdk.Base.{
  ℕ, zero, suc, ◌+◌, ◌<◌, ◌^◌, ◌≡◌, refl, sym, ap₂, ◌∙◌, inr, List, [], ◌∷◌, ◌++◌, append_assoc,
  append-nil, some, arith, length-replicate, replicate,
}
use int_platform_dpdk.Types.{Options, TelemetricHdr}
use int_platform_dpdk.Ring.{empty}
use int_platform_dpdk.Ring.Window
use int_platform_dpdk.Ring.Window.{contents}
use int_platform_dpdk.Ring.Refine.{length-contents}
use int_platform_dpdk.Ring.Arith.{distance_self}
use int_platform_dpdk.Exporter.{IntExporter, ring_buffer_size}
use int_platform_dpdk.Exporter.State.{IsValid, AllValid}
use int_platform_dpdk.Exporter.Queued.{queued, ring_total}
use int_platform_dpdk.Exporter.Start.{
  SenderKind, Thread, constructed, sender_kind, start_loop, new_exporter,
}

-- Threads of one kind, numbered from `i` on.
unfoldable pub threads_from : SenderKind → ℕ → ℕ → List Thread
threads_from kind i zero = []
threads_from kind i (suc n) = record { kind = kind; id = i } ∷ threads_from kind (i + 1) n

start_loop_lem :
    (cells : ℕ → TelemetricHdr) (protocol : List ℕ) (kind : SenderKind)
    → sender_kind protocol ≡ some kind
    → (n i : ℕ) (e : IntExporter) (threads : List Thread)
    → start_loop cells protocol n i e threads
      ≡ constructed
          (record e { ring_buffs = e.ring_buffs ++ replicate n (empty cells) })
          (threads ++ threads_from kind i n)
unfolding start_loop threads_from
start_loop_lem cells protocol kind known zero i e threads =
    ap₂ (λ rings ts. constructed (record e { ring_buffs = rings }) ts)
      (sym (append-nil e.ring_buffs)) (sym (append-nil threads))
start_loop_lem cells protocol kind known (suc n) i e threads =
    rw (known, start_loop)
      (start_loop_lem cells protocol kind known n (i + 1) _ _
        ∙ ap₂ (λ rings ts. constructed (record e { ring_buffs = rings }) ts)
            (append_assoc e.ring_buffs (empty cells ∷ []) (replicate n (empty cells)))
            (append_assoc threads (record { kind = kind; id = i } ∷ [])
              (threads_from kind (i + 1) n)))

module _ (cells : ℕ → TelemetricHdr) where
  fresh-IsValid : Window.IsValid ring_buffer_size (empty cells)
  unfolding empty
  fresh-IsValid = record { small = omega arith; head_in = omega arith; tail_in = omega arith }

  replicate-AllValid : (n : ℕ) → AllValid (replicate n (empty cells))
  replicate-AllValid zero i r h = cc
  replicate-AllValid (suc n) zero r h = let e : empty cells ≡ r = cc in rw (← e) fresh-IsValid
  replicate-AllValid (suc n) (suc i) r h = replicate-AllValid n i r h

  none_queued : (n : ℕ) → ring_total (replicate n (empty cells)) ≡ 0
  unfolding ring_total empty
  none_queued zero = refl
  none_queued (suc n) =
      rw (length-contents ring_buffer_size (empty cells), distance_self ring_buffer_size 0)
        (omega (arith, none_queued n))

  -- For a protocol that is "udp", "http" or "https" and any number of rings in 32 bits, the constructor
  -- makes a valid exporter of that many rings, in which no report waits, and starts one thread of the
  -- protocol's kind for each ring, numbered from 0.
  pub new_exporter-IsValid :
      (opt : Options) (kind : SenderKind)
      → sender_kind opt.protocol ≡ some kind
      → opt.raw_buffer < 2 ^ 32
      → (e : IntExporter) × (new_exporter cells opt
          ≡ constructed e (threads_from kind 0 opt.raw_buffer))
        × IsValid e
        × (e.th_num ≡ opt.raw_buffer)
        × (queued e ≡ 0)
  unfolding new_exporter queued
  new_exporter-IsValid opt kind known small = (
    _,
    start_loop_lem cells opt.protocol kind known opt.raw_buffer 0 _ [],
    record {
      small = small;
      counted = length-replicate opt.raw_buffer (empty cells);
      turn = inr refl;
      rings = replicate-AllValid opt.raw_buffer;
    },
    refl,
    none_queued opt.raw_buffer,
  )
