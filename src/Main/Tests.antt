-- ===== src/Main/Tests.antt =====
-- The program under a host and a protocol.
use int_platform_dpdk.Base.{
  ℕ, ◌≡◌, ◌==◌, ◌&&◌, refl, inr, List, [], ◌∷◌, true, false, none, some, arith, if◌then◌else◌,
}
use int_platform_dpdk.Outcome.{ok}
use int_platform_dpdk.Text.{codes}
use int_platform_dpdk.Types.{Options, ret_ok, ret_err}
use int_platform_dpdk.Samples.{sample_options, bare_report}
use int_platform_dpdk.Samples.Safe.{blank, blank-IsBytes, arrival, arrivals_of-AllSafe}
use int_platform_dpdk.Arguments.{
  Given, returned, strcpy, set_defaults, parse_option, parse_options, parse_arguments,
}
use int_platform_dpdk.Arguments.Tests.{atoi, checked_number}
use int_platform_dpdk.Exporter.Start.{by_udp, sender_kind}
use int_platform_dpdk.Pipeline.Tests.{quiet_sockets, blank_cells}
use int_platform_dpdk.Collector.Packets.Loop.{signalled}
use int_platform_dpdk.System.{Event, arrived, poll, System}
use int_platform_dpdk.System.Accounts.{arrivals, SystemAccounted}
use int_platform_dpdk.Main.{Call, opened, bound, closed, Os, status, waiting, main}
use int_platform_dpdk.Main.Runs.{address, still_open, main-SystemAccounted, main_refused}

-- Descriptor 3, on the device of number 2.
abbrev system : Os
system = record {
  socket = some 3;
  if_nametoindex = λ name. 2;
  bind = λ fd saddr. fd == 3 && saddr.sll_ifindex == 2;
  signal = true;
}

abbrev busy : Os
busy = record system { bind = λ fd saddr. false }

-- -c 10.0.0.1 -r, and the protocol.
abbrev given : List ℕ → List Given
given protocol =
    record { op = b'c'; optarg = codes "10.0.0.1" } ∷ record { op = b'r'; optarg = protocol } ∷ []

abbrev options_for : List ℕ → Options
options_for protocol = record (set_defaults sample_options) {
  host = codes "10.0.0.1";
  host_valid = 1;
  protocol = protocol;
}

udp_given :
    parse_arguments atoi checked_number (given (codes "udp")) false sample_options
    ≡ ok (returned ret_ok, options_for (codes "udp"))
unfolding parse_arguments parse_options parse_option strcpy
udp_given = refl

udp_kind : sender_kind (options_for (codes "udp")).protocol ≡ some by_udp
unfolding sender_kind
udp_kind = refl

-- Beside the packets, the one thread polls its ring.
abbrev some_events : List Event
some_events =
    arrived (arrival false)
    ∷ poll 0
    ∷ arrived (arrival true)
    ∷ poll 0
    ∷ arrived (arrival false)
    ∷ []

main-SystemAccounted_example :
    (s : System) × (main system atoi checked_number blank_cells bare_report bare_report
        quiet_sockets some_events blank
        (given (codes "udp"))
        sample_options
      ≡ ok (record {
        how = if signalled (arrivals some_events) then status ret_ok else waiting;
        calls =
            opened 3
            ∷ bound 3 (address system (options_for (codes "udp")))
            ∷ (if signalled (arrivals some_events) then closed 3 ∷ [] else []);
        program = some s;
      }))
    × SystemAccounted (options_for (codes "udp")) some_events s
unfolding set_defaults
main-SystemAccounted_example =
    main-SystemAccounted system atoi checked_number blank_cells bare_report bare_report
      quiet_sockets some_events blank (given (codes "udp")) sample_options
      (options_for (codes "udp")) udp_given 3 by_udp refl refl refl refl udp_kind (omega arith)
      (omega arith)
      (arrivals_of-AllSafe (options_for (codes "udp")) blank (false ∷ true ∷ false ∷ [])
        blank-IsBytes (omega arith))
      (omega arith)

main_refused_example :
    (calls : List Call) × (main busy atoi checked_number blank_cells bare_report bare_report
        quiet_sockets some_events blank
        (given (codes "udp"))
        sample_options
      ≡ ok (record { how = status ret_err; calls = calls; program = none }))
    × (still_open [] calls ≡ [])
main_refused_example =
    main_refused busy atoi checked_number blank_cells bare_report bare_report quiet_sockets
      some_events blank (given (codes "udp")) sample_options (options_for (codes "udp")) udp_given
      (inr (3, refl, refl))
