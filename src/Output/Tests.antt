-- ===== src/Output/Tests.antt =====
-- The standard output of a run of two packets, in the verbose mode.
use int_platform_dpdk.Base.{
  ◌≡◌, refl, List, [], ◌∷◌, map, true, false, none, some, if◌then◌else◌, arith, ℕ, get_elem?, set,
  Option, length-set, ◌∙◌,
}
use int_platform_dpdk.Outcome.{ok}
use int_platform_dpdk.Text.{codes, show_ℕ}
use int_platform_dpdk.Text.Pieces.{lacks}
use int_platform_dpdk.Types.{ret_ok}
use int_platform_dpdk.Samples.{sample_options, sample_report, two_rings}
use int_platform_dpdk.Samples.Safe.{blank, blank-IsBytes, arrivals_of, arrivals_of-AllSafe}
use int_platform_dpdk.Ring.{pop}
use int_platform_dpdk.Ring.Refine.{pop-IsValid}
use int_platform_dpdk.Exporter.{IntExporter, Buffered, ring_buffer_size}
use int_platform_dpdk.Exporter.State
use int_platform_dpdk.Exporter.State.{AllValid-set}
use int_platform_dpdk.Exporter.Tests.{two_rings-IsValid}
use int_platform_dpdk.Collector.Packets.{
  Printed, dropped, telemetric, totals, packet_error, World, Arrival, initial, loop_proccess,
}
use int_platform_dpdk.Collector.Packets.Loop.{KeepValid, signalled}
use int_platform_dpdk.Output.{print_totals, output}
use int_platform_dpdk.Output.Reader.{Column, sequence, shown, read_column, reports}
use int_platform_dpdk.Output.Columns.{read_column-output}
use int_platform_dpdk.Output.Shows.{spoken}
use int_platform_dpdk.Output.Verbose.{reports_of, loop_proccess_shows}

totals_test : print_totals 12 3 ≡ codes "\ntotal - 12\ndrop - 3\n"
unfolding print_totals show_ℕ
totals_test = refl

abbrev some_output : List Printed
some_output =
    telemetric sample_report
    ∷ dropped 1000
    ∷ telemetric (record sample_report { seq_num = 8 })
    ∷ totals 2 1000
    ∷ packet_error
    ∷ []

read_column-output_test :
    read_column sequence (output some_output) ≡ map (shown sequence) (reports some_output)
unfolding lacks
read_column-output_test = read_column-output sequence some_output (refl, refl, (refl, refl, tt))

-- Two packets, and the signal during the wait for the second.
abbrev arrivals : List Arrival
arrivals = arrivals_of (false ∷ true ∷ [])

abbrev popped_from : IntExporter → Option Buffered → IntExporter
popped_from e none = e
popped_from e (some r) = record e {
  ring_buffs = set e.ring_buffs 1 (pop ring_buffer_size r sample_report).2;
}

-- During each wait a sender pops a report of ring 1.
abbrev popping : ℕ → IntExporter → IntExporter
popping n e = popped_from e (get_elem? e.ring_buffs 1)

popping-KeepValid : KeepValid popping
popping-KeepValid n e valid = go (get_elem? e.ring_buffs 1) refl
  where
    go : (o : Option Buffered) → get_elem? e.ring_buffs 1 ≡ o → State.IsValid (popped_from e o)
    go none h = valid
    go (some r) h =
        let kept = pop-IsValid ring_buffer_size sample_report (valid.rings 1 r h) in
        record {
          small = valid.small;
          counted = length-set e.ring_buffs 1 _ ∙ valid.counted;
          turn = valid.turn;
          rings = AllValid-set e.ring_buffs 1 _ valid.rings kept;
        }

loop_proccess_shows_example :
    let hdrs =
      reports_of sample_report sample_options (initial two_rings) arrivals blank [] (λ i. 0) in
    (w' : World) × (loop_proccess popping sample_report sample_options arrivals blank
        (initial two_rings)
      ≡ ok (if signalled arrivals then some ret_ok else none, w'))
    × (reports w'.printed ≡ spoken sample_options hdrs)
    × ((c : Column)
        → read_column c (output w'.printed) ≡ map (shown c) (spoken sample_options hdrs))
loop_proccess_shows_example =
    loop_proccess_shows popping sample_report sample_options two_rings arrivals blank
      popping-KeepValid
      (arrivals_of-AllSafe sample_options blank (false ∷ true ∷ []) blank-IsBytes (omega arith))
      two_rings-IsValid (omega arith)
