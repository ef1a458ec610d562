-- ===== src/Exporter/Start.antt =====
-- int_t4p4s_dpdk/p4int_influxdb/p4_influxdb.cc, the constructor of IntExporter: one ring and one
-- thread for each of `opt->raw_buffer`, by the protocol. The delay after each thread is left out.
use int_platform_dpdk.Base.{
  ℕ, zero, suc, ◌+◌, List, [], ◌∷◌, ◌++◌, Bool, true, false, ◌&&◌, Option, none, some, ◌==◌,
  if◌then◌else◌, ◌||◌,
}
use int_platform_dpdk.Text.{codes}
use int_platform_dpdk.Types.{Options, TelemetricHdr}
use int_platform_dpdk.Ring.{empty}
use int_platform_dpdk.Exporter.{IntExporter}

-- `==` of strings.
abbrev pub same_text : List ℕ → List ℕ → Bool
same_text [] [] = true
same_text [] (d ∷ ds) = false
same_text (c ∷ cs) [] = false
same_text (c ∷ cs) (d ∷ ds) = c == d && same_text cs ds

-- The function that a thread runs.
pub data SenderKind : Type 0 where
  by_udp by_http : SenderKind

-- A thread that was started, and its number `id`.
pub record Thread : Type 0 where
  pub kind : SenderKind
  pub id : ℕ

-- The exporter with the threads started, or the exception's text.
pub data Constructed : Type 0 where
  constructed : IntExporter → List Thread → Constructed
  thrown : List ℕ → Constructed

unfoldable pub sender_kind : List ℕ → Option SenderKind
sender_kind protocol =
    if same_text protocol (codes "udp")
    then some by_udp
    else if same_text protocol (codes "http") || same_text protocol (codes "https")
    then some by_http
    else none

-- The loop, with the rounds left: `e` and `threads` so far. `cells` is what a new ring's cells hold.
unfoldable pub start_loop :
    (ℕ → TelemetricHdr) → List ℕ → ℕ → ℕ → IntExporter → List Thread → Constructed
start_loop cells protocol zero i e threads = constructed e threads
start_loop cells protocol (suc rounds) i e threads =
    let pushed = record e { ring_buffs = e.ring_buffs ++ (empty cells ∷ []) } in
    let rest = λ (kind : SenderKind).
      start_loop cells protocol rounds (i + 1) pushed
        (threads ++ (record { kind = kind; id = i } ∷ [])) in
    elim (sender_kind protocol) [ none ↦ thrown (codes "Unknown protocol") | some kind ↦ rest kind ]

unfoldable pub new_exporter : (ℕ → TelemetricHdr) → Options → Constructed
new_exporter cells opt =
    start_loop cells opt.protocol opt.raw_buffer 0
      (record { th_num = opt.raw_buffer; ring_buffs = []; rr_index = 0 }) []
