-- ===== src/Http/Responses.antt =====
-- Which responses the HTTP transport takes for a failure.
use int_platform_dpdk.Base.{ℕ, ◌≡◌, ◌<◌, ◌↔◌, ◌⊎◌, List, none, arith}
use int_platform_dpdk.Http.{treat_curl_response, send}

-- HTTP::send returns without an exception exactly when curl reports no error and the response code is
-- below 400 or is 500 itself.
pub send_succeeds_iff :
    (curl_easy_strerror : ℕ → List ℕ) (perform : ℕ → List ℕ → ℕ × ℕ) (n : ℕ) (text : List ℕ)
    → (send curl_easy_strerror perform n text ≡ none)
      ↔ (((perform n text).0 ≡ 0) × (((perform n text).1 < 400) ⊎ ((perform n text).1 ≡ 500)))
unfolding send treat_curl_response
send_succeeds_iff curl_easy_strerror perform n text =
    response ((perform n text).0) ((perform n text).1)
  where
    response :
        (r c : ℕ)
        → (treat_curl_response curl_easy_strerror r c ≡ none) ↔ ((r ≡ 0) × ((c < 400) ⊎ (c ≡ 500)))
    response r c = (λ h. ground arith, λ h. ground arith)
