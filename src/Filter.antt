-- ===== src/Filter.antt =====
-- int_t4p4s_dpdk/p4int_influxdb/p4int.cc, load_flt: the rules for the filter of flows. A file that cannot be
-- opened is `none`, otherwise its text.
--
-- `sscanf` with the format of the call, a parameter, has the five variables before and after: it
-- leaves those alone to which its input does not come.
pub mod RoundTrip
mod Tests
use int_platform_dpdk.Base.{ℕ, ◌+◌, ◌/◌, ◌%◌, List, [], ◌∷◌, ◌++◌, Option, none, some}
use int_platform_dpdk.Text.Pieces.{pieces}
use int_platform_dpdk.Types.{Options}

-- The arguments of sscanf: `array[3]` to `array[0]`, and `port`.
pub record Scanned : Type 0 where
  pub byte_3 : ℕ
  pub byte_2 : ℕ
  pub byte_1 : ℕ
  pub byte_0 : ℕ
  pub port : ℕ

-- How the function is left.
pub data Loaded : Type 0 where
  exited : ℕ → Loaded
  loaded : Options → Loaded

-- What `getline` gets out of a text, before it fails: the last line may lack its end.
unfoldable pub get_lines : List (List ℕ) → List (List ℕ)
get_lines [] = []
get_lines ([] ∷ []) = []
get_lines ((c ∷ cs) ∷ []) = (c ∷ cs) ∷ []
get_lines (line ∷ next ∷ lines) = line ∷ get_lines (next ∷ lines)

-- The six bytes that are pushed.
unfoldable pub array_of : Scanned → List ℕ
array_of s = s.byte_0 ∷ s.byte_1 ∷ s.byte_2 ∷ s.byte_3 ∷ s.port % 256 ∷ s.port / 256 % 256 ∷ []

module _ (sscanf : List ℕ → Scanned → Scanned) (stack : ℕ → Scanned) where
  -- The loop. `stack` is what the uninitialised variables hold in each round.
  unfoldable pub load_lines : ℕ → List (List ℕ) → Options → Options
  unfolding array_of
  load_lines n [] opt = opt
  load_lines n (line ∷ lines) opt =
      load_lines (n + 1) lines
        (record opt { ip_flt = opt.ip_flt ++ (array_of (sscanf line (stack n)) ∷ []) })

  unfoldable pub load_flt : Option (List ℕ) → Options → Loaded
  unfolding load_lines get_lines
  load_flt none opt = exited 1
  load_flt (some text) opt = loaded (load_lines 0 (get_lines (pieces b'\n' text)) opt)
