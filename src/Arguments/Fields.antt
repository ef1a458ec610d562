-- ===== src/Arguments/Fields.antt =====
-- What the options are after the arguments.
use int_platform_dpdk.Base.{
  ℕ, ◌<◌, ◌≡◌, refl, List, [], ◌∷◌, Bool, true, false, not, ◌&&◌, ◌||◌, ◌∙◌, ◌++◌, Option,
  Option-cases, none, some, length, lt→ltb, ◌==◌, if◌then◌else◌, arith, inl, inr,
}
use int_platform_dpdk.Outcome.{Outcome, ok, fault}
use int_platform_dpdk.Words.{u16}
use int_platform_dpdk.Types.{Options, ret_ok, ret_err}
use int_platform_dpdk.Arguments.{
  Given, Left, returned, exited, char_buff_size, strcpy, set_defaults, convert, parse_option,
  parse_options, parse_arguments,
}

-- Every argument fits the buffers.
abbrev pub AllFit : List Given → Type 0
AllFit [] = Unit
AllFit (g ∷ gs) = (length g.optarg < char_buff_size) × AllFit gs

-- The argument of the last of the options `c`.
abbrev pub last_arg : ℕ → List Given → Option (List ℕ)
last_arg c [] = none
last_arg c (g ∷ gs) = elim (last_arg c gs) [
  | some text ↦ some text
  | none ↦ if g.op == c then some g.optarg else none
]

strcpy-ok : (text : List ℕ) → length text < char_buff_size → strcpy text ≡ ok text
unfolding strcpy
strcpy-ok text h = rw (lt→ltb (length text) char_buff_size h)

-- A value made of the argument, or the one before.
abbrev pub chosen : {A : Type 0} → (List ℕ → A) → A → Option (List ℕ) → A
chosen f before none = before
chosen f before (some text) = f text

chosen-step :
    {A : Type 0} (f : List ℕ → A) (before now : A) (c : ℕ) (g : Given) (gs : List Given)
    → now ≡ chosen f before (if g.op == c then some g.optarg else none)
    → chosen f now (last_arg c gs) ≡ chosen f before (last_arg c (g ∷ gs))
chosen-step f before now c g gs e = elim (Option-cases (last_arg c gs)) [
  | inl none_later ↦ rw none_later e
  | inr (text, later) ↦ rw later
]

module _ (atoi : List ℕ → Option (ℕ × Bool)) (strtoumax : List ℕ → ℕ × Bool) where
  -- The value of a number, and whether reading it sets `errno` to ERANGE.
  abbrev pub converted : List ℕ → ℕ
  converted text = elim (atoi text) [ none ↦ 0 | some r ↦ r.0 ]

  abbrev pub overflows : List ℕ → Bool
  overflows text = elim (atoi text) [ none ↦ false | some r ↦ r.1 ]

  -- The options with a number, but for the port.
  abbrev pub numeric : ℕ → Bool
  numeric op = op == b'b' || op == b'm' || op == b'i'

  -- A number of which atoi is undefined.
  abbrev pub undefined : Given → Bool
  undefined g = numeric g.op && elim (atoi g.optarg) [ none ↦ true | some r ↦ false ]

  -- Whether `errno` is ERANGE after an argument, and after several.
  abbrev pub erange_after : Bool → Given → Bool
  erange_after erange g =
      if g.op == b'p'
      then erange || (strtoumax g.optarg).1
      else if numeric g.op
      then erange || overflows g.optarg
      else erange

  abbrev pub erange_from : Bool → List Given → Bool
  erange_from erange [] = erange
  erange_from erange (g ∷ gs) = erange_from (erange_after erange g) gs

  -- An argument that ends the parsing, and one after which the program goes on.
  abbrev pub ends : Bool → Given → Bool
  ends erange g =
      g.op == b'h' || g.op == b'?' || (g.op == b'p' && (erange || (strtoumax g.optarg).1))

  abbrev pub accepted : Bool → Given → Bool
  accepted erange g = not (ends erange g) && not (undefined g)

  abbrev pub AllAccepted : Bool → List Given → Type 0
  AllAccepted erange [] = Unit
  AllAccepted erange (g ∷ gs) = (accepted erange g ≡ true) × AllAccepted (erange_after erange g) gs

  -- Each option is what the last of its arguments makes it, and as before if there is none.
  pub record Configured (opt : Options) (gs : List Given) (opt' : Options) : Type 0 where
    pub dev_id : opt'.dev_id ≡ chosen (λ t. t) opt.dev_id (last_arg b'd' gs)
    pub host : opt'.host ≡ chosen (λ t. t) opt.host (last_arg b'c' gs)
    pub host_valid : opt'.host_valid ≡ chosen (λ t. 1) opt.host_valid (last_arg b'c' gs)
    pub port : opt'.port ≡ chosen (λ t. u16 (strtoumax t).0) opt.port (last_arg b'p' gs)
    pub protocol : opt'.protocol ≡ chosen (λ t. t) opt.protocol (last_arg b'r' gs)
    pub username : opt'.username ≡ chosen (λ t. t) opt.username (last_arg b'u' gs)
    pub password : opt'.password ≡ chosen (λ t. t) opt.password (last_arg b's' gs)
    pub batch : opt'.batch ≡ chosen converted opt.batch (last_arg b'b' gs)
    pub log : opt'.log ≡ chosen (λ t. 1) opt.log (last_arg b'l' gs)
    pub log_file : opt'.log_file ≡ chosen (λ t. t) opt.log_file (last_arg b'l' gs)
    pub verbose : opt'.verbose ≡ chosen (λ t. 1) opt.verbose (last_arg b'v' gs)
    pub tstmp : opt'.tstmp ≡ chosen (λ t. 1) opt.tstmp (last_arg b't' gs)
    pub smpl_rate : opt'.smpl_rate ≡ chosen converted opt.smpl_rate (last_arg b'm' gs)
    pub raw_buffer : opt'.raw_buffer ≡ chosen converted opt.raw_buffer (last_arg b'i' gs)
    pub p4cfg : opt'.p4cfg ≡ opt.p4cfg
    pub ip_flt : opt'.ip_flt ≡ opt.ip_flt

  option_step :
      (g : Given) (erange : Bool) (opt : Options) (erange' : Bool) (opt' : Options)
      → length g.optarg < char_buff_size
      → parse_option atoi strtoumax g erange opt ≡ ok (none, erange', opt')
      → Configured opt (g ∷ []) opt'
  unfolding parse_option convert
  option_step g erange opt erange' opt' fits h = record {
    dev_id = ground (arith, strcpy-ok g.optarg fits);
    host = ground (arith, strcpy-ok g.optarg fits);
    host_valid = ground (arith, strcpy-ok g.optarg fits);
    port = ground (arith, strcpy-ok g.optarg fits);
    protocol = ground (arith, strcpy-ok g.optarg fits);
    username = ground (arith, strcpy-ok g.optarg fits);
    password = ground (arith, strcpy-ok g.optarg fits);
    batch = ground (arith, strcpy-ok g.optarg fits);
    log = ground (arith, strcpy-ok g.optarg fits);
    log_file = ground (arith, strcpy-ok g.optarg fits);
    verbose = ground (arith, strcpy-ok g.optarg fits);
    tstmp = ground (arith, strcpy-ok g.optarg fits);
    smpl_rate = ground (arith, strcpy-ok g.optarg fits);
    raw_buffer = ground (arith, strcpy-ok g.optarg fits);
    p4cfg = ground (arith, strcpy-ok g.optarg fits);
    ip_flt = ground (arith, strcpy-ok g.optarg fits);
  }

  option_ends :
      (g : Given) (erange : Bool) (opt : Options)
      → length g.optarg < char_buff_size
      → accepted erange g ≡ true
      → (opt' : Options) × (parse_option atoi strtoumax g erange opt
          ≡ ok (none, erange_after erange g, opt'))
  unfolding parse_option convert
  option_ends g erange opt fits yes_so = go (parse_option atoi strtoumax g erange opt) refl
    where
      go :
          (r : Outcome (Option Left × Bool × Options))
          → parse_option atoi strtoumax g erange opt ≡ r
          → (opt' : Options) × (r ≡ ok (none, erange_after erange g, opt'))
      go (ok (none, erange', opt')) e = (opt', ground (arith, strcpy-ok g.optarg fits))
      go (ok (some left, erange', opt')) e = absurd (ground (arith, strcpy-ok g.optarg fits))
      go (fault why) e = absurd (ground (arith, strcpy-ok g.optarg fits))

  Configured-step :
      (g : Given) (gs : List Given) (opt mid opt' : Options)
      → Configured opt (g ∷ []) mid
      → Configured mid gs opt'
      → Configured opt (g ∷ gs) opt'
  Configured-step g gs opt mid opt' one more = record {
    dev_id = more.dev_id ∙ chosen-step (λ t. t) opt.dev_id mid.dev_id b'd' g gs one.dev_id;
    host = more.host ∙ chosen-step (λ t. t) opt.host mid.host b'c' g gs one.host;
    host_valid =
        more.host_valid
        ∙ chosen-step (λ t. 1) opt.host_valid mid.host_valid b'c' g gs one.host_valid;
    port = more.port ∙ chosen-step (λ t. u16 (strtoumax t).0) opt.port mid.port b'p' g gs one.port;
    protocol =
        more.protocol ∙ chosen-step (λ t. t) opt.protocol mid.protocol b'r' g gs one.protocol;
    username =
        more.username ∙ chosen-step (λ t. t) opt.username mid.username b'u' g gs one.username;
    password =
        more.password ∙ chosen-step (λ t. t) opt.password mid.password b's' g gs one.password;
    batch = more.batch ∙ chosen-step converted opt.batch mid.batch b'b' g gs one.batch;
    log = more.log ∙ chosen-step (λ t. 1) opt.log mid.log b'l' g gs one.log;
    log_file =
        more.log_file ∙ chosen-step (λ t. t) opt.log_file mid.log_file b'l' g gs one.log_file;
    verbose = more.verbose ∙ chosen-step (λ t. 1) opt.verbose mid.verbose b'v' g gs one.verbose;
    tstmp = more.tstmp ∙ chosen-step (λ t. 1) opt.tstmp mid.tstmp b't' g gs one.tstmp;
    smpl_rate =
        more.smpl_rate ∙ chosen-step converted opt.smpl_rate mid.smpl_rate b'm' g gs one.smpl_rate;
    raw_buffer =
        more.raw_buffer
        ∙ chosen-step converted opt.raw_buffer mid.raw_buffer b'i' g gs one.raw_buffer;
    p4cfg = more.p4cfg ∙ one.p4cfg;
    ip_flt = more.ip_flt ∙ one.ip_flt;
  }

  options_lem :
      (gs : List Given) (erange : Bool) (opt : Options)
      → AllFit gs
      → AllAccepted erange gs
      → (opt' : Options) × (parse_options atoi strtoumax gs erange opt ≡ ok (returned ret_ok, opt'))
        × Configured opt gs opt'
  unfolding parse_options
  options_lem [] erange opt fit all = (
    opt,
    refl,
    record {
      dev_id = refl;
      host = refl;
      host_valid = refl;
      port = refl;
      protocol = refl;
      username = refl;
      password = refl;
      batch = refl;
      log = refl;
      log_file = refl;
      verbose = refl;
      tstmp = refl;
      smpl_rate = refl;
      raw_buffer = refl;
      p4cfg = refl;
      ip_flt = refl;
    },
  )
  options_lem (g ∷ gs) erange opt (fits, fit) (yes_so, all) =
      let (mid, runs) = option_ends g erange opt fits yes_so in
      let (opt', rest, more) = options_lem gs (erange_after erange g) mid fit all in
      (
        opt',
        rw runs rest,
        Configured-step g gs opt mid opt' (option_step g erange opt _ mid fits runs) more,
      )

  -- Arguments that all fit the buffers of 512 bytes, with no `-h`, no unknown option, no number of which
  -- atoi is undefined, and no port while `errno` is ERANGE, from before or by this port or any number
  -- up to it: parse_arguments returns RET_OK without a fault, and every option is what the last of its
  -- arguments makes it, or its default, or (for a text without a default and the port) what the structure
  -- held.
  pub parse_arguments-Configured :
      (gs : List Given) (erange : Bool) (opt : Options)
      → AllFit gs
      → AllAccepted erange gs
      → (opt' : Options) × (parse_arguments atoi strtoumax gs erange opt
          ≡ ok (returned ret_ok, opt'))
        × Configured (set_defaults opt) gs opt'
  unfolding parse_arguments
  parse_arguments-Configured gs erange opt fit all =
      options_lem gs erange (set_defaults opt) fit all

  rejected_ends :
      (g : Given) (erange : Bool) (opt : Options)
      → ends erange g ≡ true
      → (erange' : Bool) × (opt' : Options) × (parse_option atoi strtoumax g erange opt
          ≡ ok (some (if g.op == b'h' then exited 0 else returned ret_err), erange', opt'))
  unfolding parse_option
  rejected_ends g erange opt yes_so = go (parse_option atoi strtoumax g erange opt) refl
    where
      go :
          (r : Outcome (Option Left × Bool × Options))
          → parse_option atoi strtoumax g erange opt ≡ r
          → (erange' : Bool) × (opt' : Options) × (r
              ≡ ok (some (if g.op == b'h' then exited 0 else returned ret_err), erange', opt'))
      go (ok (none, erange', opt')) e = absurd (ground arith)
      go (ok (some left, erange', opt')) e = (erange', opt', ground arith)
      go (fault why) e = absurd (ground arith)

  -- The first argument that is `-h`, unknown, or a port while `errno` is ERANGE, be it by this port, by
  -- a number before it, or from before the call, ends the parsing, if all before it fit the buffers of
  -- 512 bytes and have numbers of which atoi is not undefined, whatever follows: `-h` by exit(0), the
  -- others by returning RET_ERR.
  pub parse_arguments_stops :
      (gs : List Given) (g : Given) (rest : List Given) (erange : Bool) (opt : Options)
      → AllFit gs
      → AllAccepted erange gs
      → ends (erange_from erange gs) g ≡ true
      → (opt' : Options) × (parse_arguments atoi strtoumax (gs ++ (g ∷ rest)) erange opt
          ≡ ok (if g.op == b'h' then exited 0 else returned ret_err, opt'))
  unfolding parse_arguments parse_options
  parse_arguments_stops gs g rest erange opt fit all yes_so =
      go gs erange (set_defaults opt) fit all yes_so
    where
      go :
          (hs : List Given) (now : Bool) (from : Options)
          → AllFit hs
          → AllAccepted now hs
          → ends (erange_from now hs) g ≡ true
          → (opt' : Options) × (parse_options atoi strtoumax (hs ++ (g ∷ rest)) now from
              ≡ ok (if g.op == b'h' then exited 0 else returned ret_err, opt'))
      go [] now from fits yes_so last =
          let (erange', opt', runs) = rejected_ends g now from last in (opt', rw runs)
      go (h ∷ hs) now from (fits, more_fit) (yes_so, more) last =
          let (mid, runs) = option_ends h now from fits yes_so in
          let (opt', stops) = go hs (erange_after now h) mid more_fit more last in
          (opt', rw runs stops)
