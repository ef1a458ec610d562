-- ===== src/Main.antt =====
-- int_t4p4s_dpdk/p4int_influxdb/p4int.cc: prepare_socket and main. The system is a parameter: what
-- `socket` returns (a descriptor, or nothing for -1), `if_nametoindex`, whether `bind` succeeds, and whether
-- `signal` does; getopt, atoi and strtoumax are those of Arguments, recvfrom that of Collector/Packets, and
-- the sockets of the sender threads, taken as opened, those of Sender. What is printed on the way is
-- left out.
pub mod Runs
mod Tests
use int_platform_dpdk.Base.{
  false, ℕ, List, [], ◌∷◌, ◌++◌, Bool, Option, none, some, not, ◌==◌, if◌then◌else◌,
}
use int_platform_dpdk.Outcome.{Outcome, ok, ◌>>=◌}
use int_platform_dpdk.Types.{Options, TelemetricHdr, ret_ok, ret_err}
use int_platform_dpdk.Packet.{Buffer}
use int_platform_dpdk.Arguments.{Given, returned, exited, parse_arguments}
use int_platform_dpdk.Exporter.Start.{Thread, SenderKind, by_udp, constructed, thrown, new_exporter}
use int_platform_dpdk.Sender.{Transport}
use int_platform_dpdk.System.{Event, System, events}
use int_platform_dpdk.System.Accounts.{boot}

abbrev pub int_eth_type : ℕ
int_eth_type = 65535

-- `struct sockaddr_ll`, of the family AF_PACKET. Both bytes of the protocol are the same, so that htons
-- leaves it.
pub record Sockaddr : Type 0 where
  pub sll_protocol : ℕ
  pub sll_ifindex : ℕ

-- The calls that concern the descriptor, in order.
pub data Call : Type 0 where
  opened : ℕ → Call
  bound : ℕ → Sockaddr → Call
  closed : ℕ → Call

pub record Os : Type 0 where
  pub socket : Option ℕ
  pub if_nametoindex : List ℕ → ℕ
  pub bind : ℕ → Sockaddr → Bool
  pub signal : Bool

-- How the program stands: ended with a status, ended by an exception that nothing catches, or in recvfrom.
pub data End : Type 0 where
  status : ℕ → End
  uncaught : List ℕ → End
  waiting : End

-- With the calls, and the running program if the loop was entered.
pub record Run : Type 0 where
  pub how : End
  pub calls : List Call
  pub program : Option System

-- What it returns, the descriptor if it is open, and the calls.
unfoldable pub prepare_socket : Os → Options → ℕ × Option ℕ × List Call
prepare_socket os opt = elim os.socket [
  | none ↦ (ret_err, none, [])
  | some fd ↦
      let saddr : Sockaddr = record {
        sll_protocol = int_eth_type;
        sll_ifindex = os.if_nametoindex opt.dev_id;
      } in
      if not (os.bind fd saddr)
      then (ret_err, none, opened fd ∷ bound fd saddr ∷ closed fd ∷ [])
      else (ret_ok, some fd, opened fd ∷ bound fd saddr ∷ [])
]

-- `close(sock.sockfd)`.
abbrev pub close : Option ℕ → List Call
close none = []
close (some fd) = closed fd ∷ []

-- What the threads run: they are all of one kind. (If there are none, there is no ring to poll, and the
-- kind does not matter.)
unfoldable pub kind_of : List Thread → SenderKind
kind_of [] = by_udp
kind_of (t ∷ ts) = t.kind

module _ (os : Os) (atoi : List ℕ → Option (ℕ × Bool)) (strtoumax : List ℕ → ℕ × Bool)
    (cells : ℕ → TelemetricHdr) (stack before : TelemetricHdr) (transports : ℕ → Transport)
    (xs : List Event) (buff : Buffer) where
  -- From the signal handler on. loop_proccess runs beside the threads that the constructor has started,
  -- as the events of System: the packets that it receives, and the polls of the threads.
  unfoldable pub serve : Options → Option ℕ → List Call → Outcome Run
  serve opt sock calls =
      if not os.signal
      then ok (record { how = status ret_err; calls = calls; program = none })
      else elim (new_exporter cells opt) [
        | thrown what ↦ ok (record { how = uncaught what; calls = calls; program = none })
        | constructed e threads ↦
            events stack opt (kind_of threads) transports before xs (boot e buff) >>= λ s.
            elim (s.returned) [
              | none ↦ ok (record { how = waiting; calls = calls; program = some s })
              | some ret ↦
                  ok (record { how = status ret; calls = calls ++ close sock; program = some s })
            ]
      ]

  -- From prepare_socket on.
  unfoldable pub with_socket : Options → ℕ × Option ℕ × List Call → Outcome Run
  unfolding serve
  with_socket opt (ret, sock, calls) =
      if ret == ret_ok
      then serve opt sock calls
      else ok (record { how = status ret; calls = calls; program = none })

  unfoldable pub after_arguments : Options → Outcome Run
  unfolding with_socket prepare_socket
  after_arguments opt = with_socket opt (prepare_socket os opt)

  -- `opt` is what the structure holds before it is initialised. When a program starts, `errno` is 0.
  unfoldable pub main : List Given → Options → Outcome Run
  unfolding after_arguments
  main gs opt = parse_arguments atoi strtoumax gs false opt >>= λ r. elim (r.0) [
    | exited code ↦ ok (record { how = status code; calls = []; program = none })
    | returned ret ↦
        if ret == ret_ok
        then after_arguments r.1
        else ok (record { how = status ret_err; calls = []; program = none })
  ]
