-- ===== src/System/Server.antt =====
-- From the packets to what InfluxDB's server is asked to write: the running program over http_sender's
-- sockets.
use int_platform_dpdk.Base.{
  ℕ, ◌+◌, ◌^◌, ◌<◌, ◌≡◌, inl, inr, refl, sym, ap, ◌∙◌, List, [], ◌∷◌, map, length, false, Option,
  none, some, ◌==◌,
}
use int_platform_dpdk.Types.{Options, TelemetricHdr}
use int_platform_dpdk.Packet.{Buffer}
use int_platform_dpdk.Report.Reader.{Point, read_points}
use int_platform_dpdk.Sender.{Transport}
use int_platform_dpdk.Sender.Lossless.{report_text}
use int_platform_dpdk.Sender.Decoded.{all_points}
use int_platform_dpdk.Http.{Try, value}
use int_platform_dpdk.Http.Handle.{Handle}
use int_platform_dpdk.Http.Client.{Reply, Http, uninitialized, open_socket, sends}
use int_platform_dpdk.Http.Requests.{greeting, posted, Plain, treated}
use int_platform_dpdk.Http.Posts.{answers, outcomes, sends-open_socket}
use int_platform_dpdk.Exporter.{IntExporter}
use int_platform_dpdk.Exporter.Start.{by_http, sender_kind, constructed, new_exporter}
use int_platform_dpdk.Exporter.Fresh.{threads_from}
use int_platform_dpdk.Collector.Packets.Loop.{AllSafe}
use int_platform_dpdk.System.{Event, System}
use int_platform_dpdk.System.Accounts.{arrivals}
use int_platform_dpdk.System.Delivery.{Arrived, events_deliver}

-- The points that the server reads in the body of a request.
abbrev pub body_points : Handle → Option (List Point)
body_points handle = elim (handle.postfields) [ none ↦ none | some text ↦ read_points text ]

module _ (stack : TelemetricHdr) (opt : Options) (strerror : ℕ → List ℕ)
    (escape : List ℕ → Option (List ℕ)) (server : ℕ → ℕ → Handle → Reply) (before : TelemetricHdr)
    (plain : Plain opt) (on : (opt.host_valid == 0) ≡ false) where
  -- The socket of thread `i`: its first request is the constructor's.
  abbrev pub sockets : ℕ → Transport
  sockets i n text =
      int_platform_dpdk.Http.send strerror (answers strerror escape (server i) opt plain) (n + 1)
        text

  -- What the server of thread `i` was asked.
  pub record Asked (xs : List Event) (i : ℕ) (e : IntExporter) (buff : Buffer) (s : System)
      : Type 0 where
    pub arrived : Arrived stack opt sockets before on xs i e buff s
    pub socket : Http
    pub opened : open_socket 0 strerror escape (server i) opt uninitialized ≡ (value tt, socket)
    pub results :
        (sends 0 strerror escape (server i) (s.senders i).sent socket).0
        ≡ outcomes strerror escape (server i) opt plain 1 (s.senders i).sent
    pub requests :
        (sends 0 strerror escape (server i) (s.senders i).sent socket).1.requests
        ≡ greeting opt ∷ map (λ block. posted opt (report_text block)) arrived.blocks
    pub points :
        map (λ block. body_points (posted opt (report_text block))) arrived.blocks
        ≡ map (λ block. some (all_points block)) arrived.blocks

  map-map :
      {A B C : Type 0} (f : A → B) (g : B → C) (xs : List A)
      → map g (map f xs) ≡ map (λ x. g (f x)) xs
  map-map f g [] = refl
  map-map f g (x ∷ xs) = ap (λ l. g (f x) ∷ l) (map-map f g xs)

  opened_socket :
      (i : ℕ) (texts : List (List ℕ))
      → treated strerror escape (server i) 0 (greeting opt) ≡ none
      → (h : Http) × (open_socket 0 strerror escape (server i) opt uninitialized ≡ (value tt, h))
        × ((sends 0 strerror escape (server i) texts h).0
            ≡ outcomes strerror escape (server i) opt plain 1 texts)
        × ((sends 0 strerror escape (server i) texts h).1.requests
            ≡ greeting opt ∷ map (posted opt) texts)
  opened_socket i texts taken =
      elim (sends-open_socket strerror escape (server i) opt plain texts) [
        | inl (what, s, refused, thrown, log) ↦
            let never : none ≡ some what = sym taken ∙ refused in absurd (cc)
        | inr (s, t, opened, ready, results, log) ↦ (s, opened, results, log)
      ]

  -- With a host and a protocol "http" or "https" that have no question mark or equals sign, any number of
  -- rings in 32 bits, libcurl, and a server that takes the first request of each thread's socket: after
  -- any events with fewer than 2 ^ 64 packets that are all safe, once sender `i` has polled as often as a
  -- ring has cells, and ten times more, the program, which never faulted, has in the ring and the text
  -- of `i` nothing left. The requests of its socket are that first one, and then one for each block of
  -- at least one report, which posts the lines of the block's reports, whole and alone, under the user's
  -- name and password, to the database int_telemetry_db; what each came to is what Http.send makes of
  -- the server's answer. The blocks are together, in order, the reports taken for ring `i`, and a
  -- reader of the line protocol gets from the body of each request just the points of the block's reports.
  pub events_post :
      (cells : ℕ → TelemetricHdr) (buff : Buffer) (xs : List Event) (i : ℕ)
      → sender_kind opt.protocol ≡ some by_http
      → opt.raw_buffer < 2 ^ 32
      → i < opt.raw_buffer
      → AllSafe opt buff (arrivals xs)
      → length (arrivals xs) < 2 ^ 64
      → ((j : ℕ) → j < opt.raw_buffer → treated strerror escape (server j) 0 (greeting opt) ≡ none)
      → (e : IntExporter) × (s : System) × (new_exporter cells opt
          ≡ constructed e (threads_from by_http 0 opt.raw_buffer))
        × Asked xs i e buff s
  events_post cells buff xs i known small inside safe few taken =
      let (e, s, made, a) =
        events_deliver stack opt sockets before on cells buff xs i known small inside safe few in
      let (h, opened, results, log) = opened_socket i (s.senders i).sent (taken i inside) in
      (
        e,
        s,
        made,
        record {
          arrived = a;
          socket = h;
          opened = opened;
          results = results;
          requests =
              log
              ∙ ap (λ texts. greeting opt ∷ map (posted opt) texts) a.sent
              ∙ ap (λ l. greeting opt ∷ l) (map-map report_text (posted opt) a.blocks);
          points =
              sym (map-map report_text read_points a.blocks)
              ∙ ap (map read_points) (sym a.sent)
              ∙ a.points;
        },
      )
