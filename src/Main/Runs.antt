-- ===== src/Main/Runs.antt =====
-- What main comes to.
use int_platform_dpdk.Base.{
  Option, ℕ, zero, suc, ◌^◌, ◌<◌, ◌≡◌, ◌⊎◌, refl, ap, ◌∙◌, List, [], ◌∷◌, length, arith, Bool, true,
  false, none, some, Bool-cases, inl, inr, ◌==◌, if◌then◌else◌,
}
use int_platform_dpdk.Outcome.{Outcome, ok}
use int_platform_dpdk.Types.{Options, TelemetricHdr, ret_ok, ret_err}
use int_platform_dpdk.Packet.{Buffer}
use int_platform_dpdk.Arguments.{Given, returned, parse_arguments}
use int_platform_dpdk.Exporter.Start.{SenderKind, sender_kind}
use int_platform_dpdk.Exporter.Fresh.{threads_from}
use int_platform_dpdk.Sender.{Transport}
use int_platform_dpdk.Collector.Packets.Loop.{AllSafe, signalled}
use int_platform_dpdk.System.{Event, System}
use int_platform_dpdk.System.Accounts.{arrivals, SystemAccounted, events-SystemAccounted}
use int_platform_dpdk.Main.{
  Sockaddr, Call, opened, bound, closed, Os, with_socket, status, waiting, Run, kind_of,
  prepare_socket, serve, after_arguments, main,
}

-- The address that the socket is bound to: the device of the options, all packets of the INT type.
abbrev pub address : Os → Options → Sockaddr
address os opt = record { sll_protocol = 65535; sll_ifindex = os.if_nametoindex opt.dev_id }

abbrev pub without : ℕ → List ℕ → List ℕ
without fd [] = []
without fd (g ∷ gs) = if g == fd then gs else g ∷ without fd gs

-- The descriptors that are open after some calls.
abbrev pub still_open : List ℕ → List Call → List ℕ
still_open fds [] = fds
still_open fds (opened fd ∷ calls) = still_open (fd ∷ fds) calls
still_open fds (bound fd saddr ∷ calls) = still_open fds calls
still_open fds (closed fd ∷ calls) = still_open (without fd fds) calls

module _ (os : Os) (atoi : List ℕ → Option (ℕ × Bool)) (strtoumax : List ℕ → ℕ × Bool)
    (cells : ℕ → TelemetricHdr) (stack before : TelemetricHdr) (transports : ℕ → Transport)
    (xs : List Event) (buff : Buffer) (gs : List Given) (opt opt' : Options)
    (parsed : parse_arguments atoi strtoumax gs false opt ≡ ok (returned ret_ok, opt')) where
  after_parsing :
      main os atoi strtoumax cells stack before transports xs buff gs opt
      ≡ after_arguments os atoi strtoumax cells stack before transports xs buff opt'
  unfolding main
  after_parsing = rw (parsed) refl

  told :
      (fd : ℕ) (s : System)
      → s.returned ≡ (if signalled (arrivals xs) then some ret_ok else none)
      → Path
          (Outcome Run)
          (elim (s.returned) [
            | none ↦ ok (record {
              how = waiting;
              calls = opened fd ∷ bound fd (address os opt') ∷ [];
              program = some s;
            })
            | some ret ↦ ok (record {
              how = status ret;
              calls = opened fd ∷ bound fd (address os opt') ∷ closed fd ∷ [];
              program = some s;
            })
          ])
          (ok (record {
            how = if signalled (arrivals xs) then status ret_ok else waiting;
            calls =
                opened fd
                ∷ bound fd (address os opt')
                ∷ (if signalled (arrivals xs) then closed fd ∷ [] else []);
            program = some s;
          }))
  told fd s ended = elim (Bool-cases (signalled (arrivals xs))) [
    | inl hit ↦ ground (arith, hit, ended)
    | inr clear ↦ ground (arith, clear, ended)
  ]

  socket_ready :
      (fd : ℕ)
      → os.socket ≡ some fd
      → os.bind fd (address os opt') ≡ true
      → prepare_socket os opt' ≡ (ret_ok, some fd, opened fd ∷ bound fd (address os opt') ∷ [])
  unfolding prepare_socket
  socket_ready fd got free = rw (got) (rw (free) refl)

  prepared :
      (fd : ℕ)
      → os.socket ≡ some fd
      → os.bind fd (address os opt') ≡ true
      → main os atoi strtoumax cells stack before transports xs buff gs opt
        ≡ serve os atoi strtoumax cells stack before transports xs buff opt'
            (some fd)
            (opened fd ∷ bound fd (address os opt') ∷ [])
  unfolding after_arguments with_socket
  prepared fd got free =
      after_parsing
      ∙ ap (with_socket os atoi strtoumax cells stack before transports xs buff opt')
          (socket_ready fd got free)

  -- The exporter without rings runs no threads; otherwise they are of the protocol's kind.
  kind_of-threads : (kind : SenderKind) (n : ℕ) → 0 < n → kind_of (threads_from kind 0 n) ≡ kind
  unfolding kind_of threads_from
  kind_of-threads kind zero some_rings = absurd (omega (arith, some_rings))
  kind_of-threads kind (suc n) some_rings = refl

  -- With arguments that parse_arguments accepts, a host, a protocol that is known and from 1 to 2 ^ 32 - 1
  -- rings, if the socket can be opened and bound and the handler registered: over any packets that are safe
  -- under these options, of which there are fewer than 2 ^ 64, while the threads that main has started poll
  -- their rings in any order, main enters the loop without a fault. It returns RET_OK and closes the
  -- socket if the signal came, and waits for more packets otherwise. Of the packets up to there, each report
  -- that is due was taken for a ring or counted as dropped; those taken for a ring are in order those that
  -- its thread popped and those that it holds; and what a thread has handed to its socket, followed by what
  -- it still holds, is the text of those that it popped.
  pub main-SystemAccounted :
      (fd : ℕ) (kind : SenderKind)
      → os.socket ≡ some fd
      → os.bind fd (address os opt') ≡ true
      → os.signal ≡ true
      → (opt'.host_valid == 0) ≡ false
      → sender_kind opt'.protocol ≡ some kind
      → 0 < opt'.raw_buffer
      → opt'.raw_buffer < 2 ^ 32
      → AllSafe opt' buff (arrivals xs)
      → length (arrivals xs) < 2 ^ 64
      → (s : System) × (main os atoi strtoumax cells stack before transports xs buff gs opt
          ≡ ok (record {
            how = if signalled (arrivals xs) then status ret_ok else waiting;
            calls =
                opened fd
                ∷ bound fd (address os opt')
                ∷ (if signalled (arrivals xs) then closed fd ∷ [] else []);
            program = some s;
          }))
        × SystemAccounted opt' xs s
  unfolding serve
  main-SystemAccounted fd kind got free ready on known some_rings narrow safe few =
      let (e, s, made, runs, accounted) =
        events-SystemAccounted stack opt' kind transports before cells buff xs on known narrow safe
          few in
      (
        s,
        prepared fd got free
            ∙ rw (ready) (
                rw (made) (
                  rw (kind_of-threads kind opt'.raw_buffer some_rings)
                    (rw (runs) (told fd s accounted.returned)))),
        accounted,
      )

  -- With arguments that parse_arguments accepts, if the socket cannot be opened, or can be opened but not
  -- bound: main returns RET_ERR without making an exporter or receiving a packet, and leaves no descriptor
  -- open.
  pub main_refused :
      (os.socket ≡ none)
        ⊎ ((fd : ℕ) × (os.socket ≡ some fd) × (os.bind fd (address os opt') ≡ false))
      → (calls : List Call) × (main os atoi strtoumax cells stack before transports xs buff gs opt
          ≡ ok (record { how = status ret_err; calls = calls; program = none }))
        × (still_open [] calls ≡ [])
  unfolding after_arguments with_socket prepare_socket
  main_refused (inl missing) = (
    [],
    after_parsing
        ∙ ap (with_socket os atoi strtoumax cells stack before transports xs buff opt')
            (no_socket missing),
    refl,
  )
    where
      no_socket : os.socket ≡ none → prepare_socket os opt' ≡ (ret_err, none, [])
      no_socket missing = rw (missing) refl
  main_refused (inr (fd, got, taken)) =
      let calls = opened fd ∷ bound fd (address os opt') ∷ closed fd ∷ [] in
      (
        calls,
        after_parsing
            ∙ ap (with_socket os atoi strtoumax cells stack before transports xs buff opt')
                (no_bind got taken),
        ground arith,
      )
    where
      no_bind :
          os.socket ≡ some fd
          → os.bind fd (address os opt') ≡ false
          → prepare_socket os opt'
            ≡ (ret_err, none, opened fd ∷ bound fd (address os opt') ∷ closed fd ∷ [])
      no_bind got taken = rw (got) (rw (taken) refl)
