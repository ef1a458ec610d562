-- ===== src/Arguments.antt =====
-- int_t4p4s_dpdk/p4int_influxdb/p4int.cc, parse_arguments: the options of the program. The results of
-- getopt are a list; what is printed on the way is left out.
--
-- `atoi` and `strtoumax` are parameters: the value, for atoi converted to `uint32_t`, and whether the call
-- sets `errno` to ERANGE. Of a text that no int can hold, atoi may be undefined, which is `none`. Whether
-- `errno` is ERANGE is a state that the calls share: nothing resets it.
pub mod Fields
pub mod Tests
use int_platform_dpdk.Base.{
  ℕ, List, [], ◌∷◌, Bool, Option, none, some, length, ltb, ◌==◌, if◌then◌else◌, ◌||◌,
}
use int_platform_dpdk.Outcome.{Outcome, ok, fault, out_of_bounds, not_representable, ◌>>=◌}
use int_platform_dpdk.Words.{u16}
use int_platform_dpdk.Types.{Options, ret_ok, ret_err}

-- `CHAR_BUFF_SIZE`.
abbrev pub char_buff_size : ℕ
char_buff_size = 512

-- One result of getopt: the character, and `optarg`.
pub record Given : Type 0 where
  pub op : ℕ
  pub optarg : List ℕ

-- How the function is left before the end of the arguments.
pub data Left : Type 0 where
  returned : ℕ → Left
  exited : ℕ → Left

-- `strcpy` into one of the buffers of the options, which it may overrun.
unfoldable pub strcpy : List ℕ → Outcome (List ℕ)
strcpy text = if ltb (length text) char_buff_size then ok text else fault out_of_bounds

-- The defaults, over what the uninitialised structure holds.
unfoldable pub set_defaults : Options → Options
set_defaults opt = record opt {
  dev_id = [];
  host_valid = 0;
  batch = 1000;
  log = 0;
  verbose = 0;
  tstmp = 0;
  p4cfg = 1;
  smpl_rate = 1;
  raw_buffer = 1;
}

module _ (atoi : List ℕ → Option (ℕ × Bool)) (strtoumax : List ℕ → ℕ × Bool) where
  unfoldable pub convert : List ℕ → Outcome (ℕ × Bool)
  convert text = elim (atoi text) [ none ↦ fault not_representable | some r ↦ ok r ]

  -- The switch. `erange` is whether `errno` is ERANGE.
  unfoldable pub parse_option : Given → Bool → Options → Outcome (Option Left × Bool × Options)
  unfolding strcpy convert
  parse_option g erange opt =
      if g.op == b'd'
      then (strcpy g.optarg >>= λ t. ok (none, erange, record opt { dev_id = t }))
      else if g.op == b'c'
      then (strcpy g.optarg >>= λ t. ok (none, erange, record opt { host = t; host_valid = 1 }))
      else if g.op == b'p'
      then ok (
        if erange || (strtoumax g.optarg).1 then some (returned ret_err) else none,
        erange || (strtoumax g.optarg).1,
        record opt { port = u16 (strtoumax g.optarg).0 },
      )
      else if g.op == b'r'
      then (strcpy g.optarg >>= λ t. ok (none, erange, record opt { protocol = t }))
      else if g.op == b'u'
      then (strcpy g.optarg >>= λ t. ok (none, erange, record opt { username = t }))
      else if g.op == b's'
      then (strcpy g.optarg >>= λ t. ok (none, erange, record opt { password = t }))
      else if g.op == b'b'
      then (convert g.optarg >>= λ r. ok (none, erange || r.1, record opt { batch = r.0 }))
      else if g.op == b'l'
      then (strcpy g.optarg >>= λ t. ok (none, erange, record opt { log = 1; log_file = t }))
      else if g.op == b'm'
      then (convert g.optarg >>= λ r. ok (none, erange || r.1, record opt { smpl_rate = r.0 }))
      else if g.op == b'i'
      then (convert g.optarg >>= λ r. ok (none, erange || r.1, record opt { raw_buffer = r.0 }))
      else if g.op == b'v'
      then ok (none, erange, record opt { verbose = 1 })
      else if g.op == b't'
      then ok (none, erange, record opt { tstmp = 1 })
      else if g.op == b'h'
      then ok (some (exited 0), erange, opt)
      else if g.op == b'?'
      then ok (some (returned ret_err), erange, opt)
      else ok (none, erange, opt)

  -- The loop, over the results of getopt to come.
  unfoldable pub parse_options : List Given → Bool → Options → Outcome (Left × Options)
  parse_options [] erange opt = ok (returned ret_ok, opt)
  parse_options (g ∷ gs) erange opt = parse_option g erange opt >>= λ r.
      let (left, erange', opt') = r in
      elim left [ some how ↦ ok (how, opt') | none ↦ parse_options gs erange' opt' ]

  -- `erange` is what the call finds.
  unfoldable pub parse_arguments : List Given → Bool → Options → Outcome (Left × Options)
  unfolding set_defaults
  parse_arguments gs erange opt = parse_options gs erange (set_defaults opt)
