-- ===== src/Udp.antt =====
-- int_t4p4s_dpdk/p4int_influxdb/UDP.cc: the UDP transport. boost::asio is a parameter: whether
-- opening the socket throws, what its resolver finds for a host and a service, and for the number and the text of a call of send_to the
-- text of the system_error that it throws, if any.
pub mod Oversized
mod Tests
use int_platform_dpdk.Base.{ℕ, List, [], ◌∷◌, Option, none, some}
use int_platform_dpdk.Text.{show_ℕ}
use int_platform_dpdk.Types.{Options}
use int_platform_dpdk.Sender.{Transport}

-- What the constructor comes to: the endpoint, an exception, or a dereference of an iterator at its end.
pub data Opened (E : Type 0) : Type 0 where
  opened : E → Opened E
  system_error : List ℕ → Opened E
  no_endpoint : Opened E

-- The results of the resolver: a list, or the text of an exception.
pub data Resolved (E : Type 0) : Type 0 where
  found : List E → Resolved E
  not_found : List ℕ → Resolved E

-- The first parameter is the text of the exception that opening the socket throws, if any.
unfoldable pub new_udp :
    {E : Type 0} → Option (List ℕ) → (List ℕ → List ℕ → Resolved E) → List ℕ → ℕ → Opened E
new_udp socket resolve hostname port = elim socket [
  | some what ↦ system_error what
  | none ↦ elim (resolve hostname (show_ℕ port)) [
    | not_found what ↦ system_error what
    | found endpoints ↦ elim endpoints [ [] ↦ no_endpoint | ◌∷◌ e es ↦ opened e ]
  ]
]

-- A system_error becomes a runtime_error with the same text.
unfoldable pub send : Transport → Transport
send send_to n message = elim (send_to n message) [ none ↦ none | some what ↦ some what ]
