-- ===== src/Http/Lifetime.antt =====
-- The handles that the class HTTP makes and frees.
use int_platform_dpdk.Base.{ℕ, ◌+◌, List, [], ◌∷◌, Option}
use int_platform_dpdk.Http.{Try, value, runtime_error, out_of_range, undefined}
use int_platform_dpdk.Http.Handle.{Handle}
use int_platform_dpdk.Http.Client.{Reply, Http, send, query, create_database}

-- A call of a method, after which the caller goes on even if it throws.
pub data Use : Type 0 where
  sent : List ℕ → Use
  asked : List ℕ → Use
  created_database : Use

abbrev pub threw : {A : Type 0} → Try A → ℕ
threw (value a) = 0
threw (runtime_error what) = 1
threw out_of_range = 1
threw undefined = 1

module _ (strerror : ℕ → List ℕ) (escape : List ℕ → Option (List ℕ))
    (perform : ℕ → Handle → Reply) where
  abbrev pub used : Use → Http → Http
  used (sent text) s = (send 0 strerror escape perform text s).1
  used (asked text) s = (query 0 strerror escape perform text s).1
  used created_database s = (create_database 0 strerror escape perform s).1

  pub uses : List Use → Http → Http
  uses [] s = s
  uses (u ∷ us) s = uses us (used u s)

  -- The calls of createDatabase that threw.
  abbrev pub refused : Use → Http → ℕ
  refused (sent text) s = 0
  refused (asked text) s = 0
  refused created_database s = threw (create_database 0 strerror escape perform s).0

  pub refusals : List Use → Http → ℕ
  refusals [] s = 0
  refusals (u ∷ us) s = refused u s + refusals us (used u s)
