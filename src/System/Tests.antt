-- ===== src/System/Tests.antt =====
-- Two packets, with polls between them.
use int_platform_dpdk.Base.{
  ◌<◌, ◌==◌, if◌then◌else◌, none, some, Option, ℕ, ◌≡◌, refl, List, [], ◌∷◌, true, false, arith,
}
use int_platform_dpdk.Outcome.{ok}
use int_platform_dpdk.Samples.Safe.{blank, blank-IsBytes, arrival, arrivals_of-AllSafe}
use int_platform_dpdk.Samples.{sample_options, bare_report}
use int_platform_dpdk.Exporter.{IntExporter}
use int_platform_dpdk.Exporter.Start.{by_udp, by_http, constructed, new_exporter}
use int_platform_dpdk.Exporter.Fresh.{threads_from}
use int_platform_dpdk.Pipeline.Tests.{quiet_sockets, blank_cells, known_kind, by_web, web_kind}
use int_platform_dpdk.System.{Event, arrived, poll, System, events}
use int_platform_dpdk.Text.{codes}
use int_platform_dpdk.Types.{Options}
use int_platform_dpdk.Http.{treat_curl_response}
use int_platform_dpdk.Http.Handle.{Handle}
use int_platform_dpdk.Http.Client.{Reply}
use int_platform_dpdk.Http.Requests.{greeting, Plain, treated}
use int_platform_dpdk.System.Server.{Asked, events_post}
use int_platform_dpdk.System.Refine.{Refined, events-Refined}
use int_platform_dpdk.System.Delivery.{Arrived, events_deliver}
use int_platform_dpdk.System.Accounts.{boot, SystemAccounted, events-SystemAccounted}

-- The second packet comes with the signal; what comes later is not received.
abbrev some_events : List Event
some_events =
    poll 1
    ∷ arrived (arrival false)
    ∷ poll 1
    ∷ poll 0
    ∷ arrived (arrival true)
    ∷ poll 0
    ∷ arrived (arrival false)
    ∷ []

events-SystemAccounted_example :
    (e : IntExporter) × (s : System) × (new_exporter blank_cells sample_options
      ≡ constructed e (threads_from by_udp 0 2))
    × (events bare_report sample_options by_udp quiet_sockets bare_report some_events (boot e blank)
        ≡ ok s)
    × SystemAccounted sample_options some_events s
events-SystemAccounted_example =
    events-SystemAccounted bare_report sample_options by_udp quiet_sockets bare_report blank_cells
      blank some_events refl known_kind (omega arith)
      (arrivals_of-AllSafe sample_options blank (false ∷ true ∷ false ∷ []) blank-IsBytes
        (omega arith))
      (omega arith)

events-Refined_example :
    (e : IntExporter) × (s : System) × (new_exporter blank_cells sample_options
      ≡ constructed e (threads_from by_udp 0 2))
    × Refined bare_report sample_options by_udp quiet_sockets bare_report refl some_events e blank s
events-Refined_example =
    events-Refined bare_report sample_options by_udp quiet_sockets bare_report refl blank_cells
      blank some_events known_kind (omega arith)
      (arrivals_of-AllSafe sample_options blank (false ∷ true ∷ false ∷ []) blank-IsBytes
        (omega arith))
      (omega arith)

events_deliver_example :
    (e : IntExporter) × (s : System) × (new_exporter blank_cells by_web
      ≡ constructed e (threads_from by_http 0 2))
    × Arrived bare_report by_web quiet_sockets bare_report refl some_events 1 e blank s
events_deliver_example =
    events_deliver bare_report by_web quiet_sockets bare_report refl blank_cells blank some_events 1
      web_kind (omega arith) (omega arith)
      (arrivals_of-AllSafe by_web blank (false ∷ true ∷ false ∷ []) blank-IsBytes (omega arith))
      (omega arith)

abbrev plain_host : Options
plain_host = record by_web { host = codes "10" }

plain_host-Plain : Plain plain_host
plain_host-Plain = record {
  no_question = (
    (
      (λ p. absurd (omega arith)),
      (
        (λ p. absurd (omega arith)),
        ((λ p. absurd (omega arith)), ((λ p. absurd (omega arith)), tt)),
      ),
    ),
    ((λ p. absurd (omega arith)), ((λ p. absurd (omega arith)), tt)),
  );
  no_equals = (
    (
      (λ p. absurd (omega arith)),
      (
        (λ p. absurd (omega arith)),
        ((λ p. absurd (omega arith)), ((λ p. absurd (omega arith)), tt)),
      ),
    ),
    ((λ p. absurd (omega arith)), ((λ p. absurd (omega arith)), tt)),
  );
}

-- Servers that take the first request and fail at the second one.
abbrev servers : ℕ → ℕ → Handle → Reply
servers i n handle = record { response = 0; response_code = if n == 1 then 503 else 204; body = [] }

abbrev no_error : ℕ → List ℕ
no_error n = []

abbrev as_it_is : List ℕ → Option (List ℕ)
as_it_is text = some text

first_taken :
    (j : ℕ)
    → j < plain_host.raw_buffer
    → treated no_error as_it_is (servers j) 0 (greeting plain_host) ≡ none
unfolding treat_curl_response
first_taken j inside = refl

events_post_example :
    (e : IntExporter) × (s : System) × (new_exporter blank_cells plain_host
      ≡ constructed e (threads_from by_http 0 2))
    × Asked bare_report plain_host no_error as_it_is servers bare_report plain_host-Plain refl
        some_events 1 e blank s
events_post_example =
    events_post bare_report plain_host no_error as_it_is servers bare_report plain_host-Plain refl
      blank_cells blank some_events 1 web_kind (omega arith) (omega arith)
      (arrivals_of-AllSafe plain_host blank (false ∷ true ∷ false ∷ []) blank-IsBytes (omega arith))
      (omega arith) first_taken
