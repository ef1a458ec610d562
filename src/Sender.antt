-- ===== src/Sender.antt =====
-- int_t4p4s_dpdk/p4int_influxdb/p4_influxdb.cc, http_sender and udp_sender: what a sender thread does
-- with the reports that it pops. A run is the sequence of the results of `ring->pop`; the delays
-- between two polls are left out.
--
-- The transport is a parameter: the text of the exception that its `n`-th `send` throws, or `none`.
pub mod Lossless
pub mod Texts
pub mod Blocks
pub mod Errors
pub mod UdpBatches
pub mod HttpFlush
pub mod Decoded
mod Tests
use int_platform_dpdk.Base.{
  ℕ, ◌+◌, List, [], ◌∷◌, ◌++◌, Bool, true, false, not, ◌&&◌, Option, none, some, length, leb, ◌==◌,
  if◌then◌else◌,
}
use int_platform_dpdk.Outcome.{Outcome, ok, ◌>>=◌}
use int_platform_dpdk.Words.{u32}
use int_platform_dpdk.Text.{codes, show_ℕ}
use int_platform_dpdk.Types.{Options, TelemetricHdr}
use int_platform_dpdk.Report.{add_report}

-- The calls of the transport's `send`, by their number and text.
abbrev pub Transport : Type 0
Transport = ℕ → List ℕ → Option (List ℕ)

-- `text` is the string `data`; `sent` are the texts handed to the transport, in order; `errors` is
-- what went to `std::cerr`. `flush` counts the polls that found the ring empty.
pub record SenderState : Type 0 where
  pub text : List ℕ
  pub it : ℕ
  pub flush : ℕ
  pub sent : List (List ℕ)
  pub errors : List (List ℕ)

abbrev pub idle : SenderState
idle = record { text = []; it = 0; flush = 0; sent = []; errors = [] }

abbrev pub pop_threshold : ℕ
pop_threshold = 10

abbrev pub is_empty : List ℕ → Bool
is_empty [] = true
is_empty (c ∷ text) = false

-- Hand the text over, report an exception, and begin a new one.
unfoldable pub flush_text :
    (Option (List ℕ) → List (List ℕ)) → Transport → SenderState → SenderState
flush_text message transport s = record s {
  text = [];
  it = 0;
  sent = s.sent ++ (s.text ∷ []);
  errors = s.errors ++ message (transport (length s.sent) s.text);
}

-- The line that udp_sender prints.
unfoldable pub udp_message : ℕ → Option (List ℕ) → List (List ℕ)
udp_message id none = []
udp_message id (some what) =
    (codes "ID:" ++ show_ℕ id ++ codes ", error: " ++ what ++ codes "\n") ∷ []

-- http_sender prints a message that it never filled.
unfoldable pub http_message : Option (List ℕ) → List (List ℕ)
http_message none = []
http_message (some what) = [] ∷ []

module _ (opt : Options) (transport : Transport) where
  -- udp_sender, from a popped report to the next poll.
  unfoldable pub udp_take : ℕ → TelemetricHdr → SenderState → Outcome SenderState
  unfolding flush_text
  udp_take id telemetric s =
      if opt.host_valid == 0
      then ok s
      else add_report telemetric s.text >>= λ r.
          let added = record s { text = r.1; it = u32 (s.it + r.0) } in
          if added.it == opt.batch
          then ok (flush_text (udp_message id) transport added)
          else ok added

  unfoldable pub udp_sender : ℕ → List TelemetricHdr → SenderState → Outcome SenderState
  udp_sender id [] s = ok s
  udp_sender id (telemetric ∷ rest) s = udp_take id telemetric s >>= udp_sender id rest

  -- http_sender: a poll that finds the ring empty.
  unfoldable pub http_wait : SenderState → SenderState
  unfolding flush_text
  http_wait s =
      let waited = record s { flush = u32 (s.flush + 1) } in
      if waited.flush == pop_threshold && not (is_empty waited.text) && not (opt.host_valid == 0)
      then flush_text http_message transport waited
      else waited

  -- http_sender, from a popped report to the next poll, before which `flush` is declared anew.
  unfoldable pub http_take : TelemetricHdr → SenderState → Outcome SenderState
  unfolding flush_text
  http_take telemetric s =
      let fresh = record s { flush = 0 } in
      if opt.host_valid == 0
      then ok fresh
      else add_report telemetric s.text >>= λ r.
          let added = record fresh { text = r.1; it = u32 (s.it + r.0) } in
          if leb opt.batch added.it then ok (flush_text http_message transport added) else ok added

  -- The results of the polls: `none` is an empty ring.
  unfoldable pub http_sender : List (Option TelemetricHdr) → SenderState → Outcome SenderState
  http_sender [] s = ok s
  http_sender (none ∷ rest) s = http_sender rest (http_wait s)
  http_sender (some telemetric ∷ rest) s = http_take telemetric s >>= http_sender rest
