-- ===== src/Arguments/Tests.antt =====
-- The arguments of the program at concrete values.
use int_platform_dpdk.Base.{
  ℕ, ◌+◌, ◌*◌, ◌-◌, ◌≡◌, refl, List, [], ◌∷◌, ◌++◌, Bool, true, false, Option, some, ◌%◌,
  if◌then◌else◌, arith, ltb,
}
use int_platform_dpdk.Outcome.{ok}
use int_platform_dpdk.Text.{codes}
use int_platform_dpdk.Types.{Options, ret_ok, ret_err}
use int_platform_dpdk.Samples.{sample_options}
use int_platform_dpdk.Arguments.{Given, returned, set_defaults, parse_arguments}
use int_platform_dpdk.Arguments.Fields.{
  Configured, AllFit, AllAccepted, parse_arguments-Configured, parse_arguments_stops,
}

-- The number that a text of digits spells.
abbrev number_from : ℕ → List ℕ → ℕ
number_from n [] = n
number_from n (c ∷ cs) = number_from (n * 10 + (c - b'0')) cs

abbrev number : List ℕ → ℕ
number text = number_from 0 text

abbrev pub checked_number : List ℕ → ℕ × Bool
checked_number text = (number text, ltb 18446744073709551615 (number text))

-- As an int of 32 bits, read as a long of 64 bits.
abbrev pub atoi : List ℕ → Option (ℕ × Bool)
atoi text = some (
    if ltb 9223372036854775807 (number text)
    then (4294967295, true)
    else (number text % 4294967296, false))

-- -c 10.0.0.1 -b 20 -b 99999999999999999999 -v
abbrev arguments : List Given
arguments =
    record { op = b'c'; optarg = codes "10.0.0.1" }
    ∷ record { op = b'b'; optarg = codes "20" }
    ∷ record { op = b'b'; optarg = codes "99999999999999999999" }
    ∷ record { op = b'v'; optarg = [] }
    ∷ []

-- -p 8086
abbrev port : Given
port = record { op = b'p'; optarg = codes "8086" }

-- -b 20 -p 8086
abbrev small_arguments : List Given
small_arguments = record { op = b'b'; optarg = codes "20" } ∷ port ∷ []

arguments-AllFit : AllFit arguments
arguments-AllFit = (omega arith, (omega arith, (omega arith, (omega arith, tt))))

arguments-AllAccepted : AllAccepted atoi checked_number false arguments
arguments-AllAccepted = (refl, (refl, (refl, (refl, tt))))

parse_arguments-Configured_example :
    (opt' : Options) × (parse_arguments atoi checked_number small_arguments false sample_options
      ≡ ok (returned ret_ok, opt'))
    × Configured atoi checked_number (set_defaults sample_options) small_arguments opt'
parse_arguments-Configured_example =
    parse_arguments-Configured atoi checked_number small_arguments false sample_options
      (omega arith, (omega arith, tt)) (refl, (refl, tt))

-- The port is in range, but the size of the batch was not.
parse_arguments_stops_example :
    (opt' : Options) × (parse_arguments atoi checked_number
        (arguments ++ (port ∷ arguments))
        false
        sample_options
      ≡ ok (returned ret_err, opt'))
parse_arguments_stops_example =
    parse_arguments_stops atoi checked_number arguments port arguments false sample_options
      arguments-AllFit arguments-AllAccepted refl
