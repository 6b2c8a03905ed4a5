-- ===== src/Simulation/Resolve.antt =====
-- Simulation/gate/main.go: how a gate names itself and finds the base URL of a service.
use task_discovery_service.Prelude.{
  ℕ, zero, suc, ◌-◌, ◌*◌, ◌^◌, Bool, not, ◌&&◌, ◌||◌, [], ◌++◌, Text, ◌==◌, text_eq, if◌then◌else◌,
  ltb, leb, nat_beq, drop, any,
}
use task_discovery_service.Prelude.Result.{Result, ok, err}
use task_discovery_service.Text.{codes, trim_space, to_lower, has_prefix, contains_text}
use task_discovery_service.Simulation.Proxy.{ensure_http_base}

abbrev pub is_digit : ℕ → Bool
is_digit c = leb 48 c && leb c 57

unfoldable pub normalize_station_id : Text → Text
normalize_station_id input =
    let v = trim_space input in
    if v == [] || any (λ c. not (is_digit c)) v then v else codes "station-" ++ v

-- The name of the station computer's task, if the flag gives none.
unfoldable pub station_task_name : Text → Text → Text
station_task_name flag station_id =
    let v = trim_space station_id in
    let id = if has_prefix v (codes "station-") then drop 8 v else v in
    if trim_space flag == [] then codes "station-Computer-" ++ id else flag

unfoldable pub is_retryable_resolve_err : Text → Bool
is_retryable_resolve_err e =
    let msg = to_lower (trim_space e) in
    contains_text msg (codes "service not found")
    || contains_text msg (codes "eof")
    || contains_text msg (codes "timeout")
    || contains_text msg (codes "connection refused")
    || contains_text msg (codes "connection reset")

pub record CachedAddr : Type 0 where
  pub value : Text
  pub at : ℕ

-- The attempts that are left, `answers n` being what the proxy answers at the n-th.
unfoldable pub resolve_attempts : (ℕ → Result Text Text) → ℕ → ℕ → Text → Result Text Text
resolve_attempts answers zero n last_err = err last_err
resolve_attempts answers (suc left) n last_err = elim (answers n) [
  | ok addr ↦ ok addr
  | err e ↦
      let again = resolve_attempts answers left (suc n) e in
      if not (is_retryable_resolve_err e) || nat_beq left 0 then err e else again
]

abbrev pub max_attempts : ℕ
max_attempts = 6

-- Two minutes in nanoseconds.
abbrev pub cache_period : ℕ
cache_period = 120 * 10 ^ 9

abbrev pub resolved : Text → ℕ → CachedAddr → Result Text Text → Result Text Text × CachedAddr
resolved fallback now cache (ok addr) =
    (ok (ensure_http_base addr), record { value = addr; at = now })
resolved fallback now cache (err e) =
    if not (cache.value == []) && ltb (now - cache.at) cache_period
    then (ok (ensure_http_base cache.value), cache)
    else if not (trim_space fallback == [])
    then (ok (ensure_http_base fallback), cache)
    else (err e, cache)

unfoldable pub resolve_base :
    (ℕ → Result Text Text) → Text → ℕ → CachedAddr → Result Text Text × CachedAddr
resolve_base answers fallback now cache =
    resolved fallback now cache (resolve_attempts answers max_attempts 1 [])

-- An error gives no base.
abbrev pub base_or_empty : Result Text Text → Text
base_or_empty (err e) = []
base_or_empty (ok base) = base
