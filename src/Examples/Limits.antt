-- ===== src/Examples/Limits.antt =====
-- The rate-limit stage on a login budget of five in 15 minutes.
use redxt.Common.{
  ℤ, pos, ◌+◌, ◌*◌, ◌≤◌, ◌<◌, ◌-ℤ◌, ◌≤ℤ◌, pos_part, ◌≡◌, refl, Bool, true, false, List, [], some,
  err, Text, bytes, ◌=ᵗ◌, arith, trim_space, has_prefix,
}
use redxt.RateLimit.Paths.{matches_path_prefix, matches_any_path, trim_slash}
use redxt.RateLimit.Window.{MemoryStore, new_memory_store, allow, decide, stamps_of, live, put}
use redxt.RateLimit.Window.Safety.{Served, start, asked, admitted_within, logged, sliding_window}
use redxt.RateLimit.Policy.{
  RateBucket, RateLimitConfig, Request, classify, resolve_bucket, global_bucket,
}
use redxt.RateLimit.Policy.Laws.{IsInForce, classify-IsInForce}
use redxt.RateLimit.Gate.{served, second, retry_seconds, rate_limit, memory_call, AllowCall}
use redxt.RateLimit.Gate.Laws.{
  retry_seconds_exact, IsRejected, broken_store_serves, class_of, Billed, served_was-Billed,
}

abbrev unset : RateBucket
unset = record { requests = pos 0; window = pos 0 }

abbrev limits : RateLimitConfig
limits = record {
  enabled = true;
  read = unset;
  write = unset;
  health = unset;
  global_burst = pos 0;
  auth = record { login = unset; password_reset = unset; registration = unset };
}

abbrev no_glob : Text → Text → Bool
no_glob pattern path = false

abbrev front_page : Request
front_page = record { path = bytes "/"; method = bytes "GET" }

abbrev client : Text
client = bytes "192.0.2.7"

abbrev login : Text
login = bytes "login"

abbrev quarter : ℤ
quarter = pos 900000000000

-- One login, at 5.
abbrev first_store : MemoryStore
first_store = (allow client login (pos 5) quarter (pos 5) new_memory_store).1

abbrev first_log : List ℤ
first_log = logged client login (pos 5) quarter [] (pos 5) new_memory_store

Served-once : Served client login (pos 5) quarter first_store first_log (pos 5)
Served-once = asked (pos 5) (start (pos 0)) (omega arith)

sliding_window_example : pos (admitted_within (pos 0) quarter first_log) ≤ℤ pos 5
sliding_window_example =
    sliding_window client login (pos 5) quarter first_store first_log (pos 5) (pos 0) (omega arith)
      (omega arith) Served-once

front_page_budget : IsInForce ((classify no_glob limits [] [] front_page).budget)
front_page_budget = classify-IsInForce no_glob limits [] [] front_page

two_seconds :
    (1500000000 ≤ pos_part (retry_seconds (pos 1500000000)) * second)
    × (pos_part (retry_seconds (pos 1500000000)) * second < 1500000000 + second)
two_seconds = retry_seconds_exact 1499999999

-- A store whose every call fails.
abbrev down : AllowCall (Unit {0}) Text
down i b l w n s = (err (bytes "unreachable"), s)

broken_login_store :
    ¬ IsRejected (rate_limit no_glob limits [] [] (some down) false client front_page (pos 5) tt).0
broken_login_store =
    broken_store_serves no_glob limits [] [] down false client front_page (pos 5) tt
      (λ i b l w t s. (bytes "unreachable", refl))

abbrev page_store : MemoryStore
page_store =
    (rate_limit no_glob limits [] [] (some (memory_call {E = Text})) false client front_page (pos 5)
      new_memory_store).1

page_served :
    rate_limit no_glob limits [] []
      (some (memory_call {E = Text}))
      false
      client
      front_page
      (pos 5)
      new_memory_store
    ≡ (served, page_store)
unfolding rate_limit classify matches_any_path matches_path_prefix trim_slash trim_space ◌=ᵗ◌
    resolve_bucket global_bucket allow decide stamps_of live put ◌-ℤ◌ has_prefix
page_served = refl

served_was-Billed_example :
    Billed no_glob limits [] []
      (class_of no_glob limits [] [] front_page)
      client
      (pos 5)
      new_memory_store
      page_store
served_was-Billed_example =
    served_was-Billed no_glob limits [] [] {E = Text} client front_page (pos 5) new_memory_store
      page_store refl page_served
