-- ===== src/RateLimit/Gate/Laws.antt =====
-- What the stage answers, on a store that works and on one that fails.
use redxt.Common.{
  ◌⊎◌, inl, inr, Bool-cases, suc, ℕ, ℤ, pos, pos_part, ◌≤◌, ◌<◌, ◌+◌, ◌*◌, ◌+ℤ◌, ◌≤ℤ◌, ltb_ℤ, Bool,
  true, false, ◌&&◌, not, ◌≡◌, refl, sym, ◌∙◌, List, some, Text, Result, ok, err, arith,
  if◌then◌else◌,
}
use redxt.RateLimit.Window.{Decision, MemoryStore, allow}
use redxt.RateLimit.Policy.{
  RateLimitConfig, AuthRateRule, Request, bucket_global, global_bucket, Class, classify,
}
use redxt.RateLimit.Policy.Laws.{global_bucket-IsInForce}
use redxt.RateLimit.Gate.{
  second, quot, retry_seconds, Outcome, served, served_reporting, too_many, AllowCall,
  after_verdict, health_paths_of, global_stage, limited_stage, rate_limit, memory_call,
}

pub retry_seconds_at_least : (r : ℤ) → pos 1 ≤ℤ retry_seconds r
unfolding retry_seconds quot
retry_seconds_at_least r = ground arith

-- The seconds of Retry-After for a positive wait cover the wait and exceed it by less than a
-- second.
pub retry_seconds_exact :
    (n : ℕ)
    → (suc n ≤ pos_part (retry_seconds (pos (suc n))) * second)
      × (pos_part (retry_seconds (pos (suc n))) * second < suc n + second)
unfolding retry_seconds quot ◌+ℤ◌
retry_seconds_exact n = ground arith

-- The answer is a 429.
abbrev pub IsRejected : {E : Type 0} → Outcome E → Type 0
IsRejected served = ⊥
IsRejected (served_reporting e) = ⊥
IsRejected (too_many seconds limit) = Unit

IsRejected-error :
    {S E : Type 0} (e : E) (r : Result E Decision × S) (next : S → Outcome E × S)
    → r.0 ≡ err e
    → IsRejected (after_verdict r next).0
    → ⊥
IsRejected-error e (err f, s) next h r = r
IsRejected-error e (ok d, s) next h r = cc

gate_served :
    {S E : Type 0} (on marked : Bool) (s : S) (r : Outcome E × S)
    → (IsRejected r.0 → ⊥)
    → IsRejected ((if not on then (served, s) else if marked then (served, s) else r).0)
    → ⊥
gate_served true true s r k h = h
gate_served true false s r k h = k h
gate_served false marked s r k h = h

gate_on : {A : Type 0} (b : Bool) (x y : A) → b ≡ true → (if not b then x else y) ≡ y
gate_on true x y h = refl
gate_on false x y h = cc

module _ (glob : Text → Text → Bool) (cfg : RateLimitConfig) (rules : List AuthRateRule)
    (health_paths : List Text) where
  -- If every call of the store fails, no request is answered with a 429.
  pub broken_store_serves :
      {S E : Type 0} (call : AllowCall S E) (allowlisted : Bool) (identifier : Text) (req : Request)
      (now : ℤ) (s : S)
      → ((i b : Text) (l w t : ℤ) (s1 : S) → (e : E) × ((call i b l w t s1).0 ≡ err e))
      → ¬ IsRejected
          (rate_limit glob cfg rules health_paths (some call) allowlisted identifier req now s).0
  unfolding rate_limit
  broken_store_serves call allowlisted identifier req now s fails h =
      let (e, failed) = fails identifier _ _ _ now s in
      gate_served cfg.enabled allowlisted s _ (IsRejected-error e _ _ failed) h

  -- What serving an ordinary request took: both budgets let it in, in this order.
  pub record Billed (c : Class) (identifier : Text) (now : ℤ) (s s' : MemoryStore) : Type 0 where
    pub class_store : MemoryStore
    pub admitted :
        (allow identifier c.bucket (c.budget.requests) (c.budget.window) now s).0.allowed ≡ true
    pub stored :
        class_store ≡ (allow identifier c.bucket (c.budget.requests) (c.budget.window) now s).1
    pub ceiling :
        ((c.is_auth ≡ true) × (s' ≡ class_store))
        ⊎ ((c.is_auth ≡ false)
            × ((allow identifier bucket_global
                  (global_bucket cfg).requests
                  (global_bucket cfg).window
                  now
                  class_store).0.allowed
                ≡ true)
            × (s'
                ≡ (allow identifier bucket_global
                    (global_bucket cfg).requests
                    (global_bucket cfg).window
                    now
                    class_store).1))

  abbrev pub class_of : Request → Class
  class_of req = classify glob cfg rules (health_paths_of health_paths) req

  verdict_served :
      {S E : Type 0} (d : Decision) (s s' : S) (next : S → Outcome E × S)
      → after_verdict (ok d, s) next ≡ (served, s')
      → (d.allowed ≡ true) × (next s ≡ (served, s'))
  verdict_served d s s' next h = ground arith

  module _ (c : Class) (identifier : Text) (now : ℤ) where
    abbrev class_verdict : MemoryStore → Decision × MemoryStore
    class_verdict s = allow identifier c.bucket (c.budget.requests) (c.budget.window) now s

    abbrev ceiling_verdict : MemoryStore → Decision × MemoryStore
    ceiling_verdict s =
        allow identifier bucket_global (global_bucket cfg).requests (global_bucket cfg).window now s

    module _ {E : Type 0} where
      abbrev after_class : MemoryStore → Outcome E × MemoryStore
      after_class s = global_stage glob cfg rules health_paths memory_call c identifier now s

      ceiling_is_on :
          (x y : Outcome E × MemoryStore)
          → c.is_auth ≡ false
          → (if not c.is_auth && ltb_ℤ (pos 0) ((global_bucket cfg).requests) then x else y) ≡ x
      ceiling_is_on x y plain = ground (arith, (global_bucket-IsInForce cfg).some_requests)

      billed :
          (s s' : MemoryStore)
          → limited_stage glob cfg rules health_paths (memory_call {E = E}) c identifier now s
            ≡ (served, s')
          → Billed c identifier now s s'
      billed s s' h =
          let (admitted, rest) =
            verdict_served (class_verdict s).0 (class_verdict s).1 s' after_class h in
          record {
            class_store = (class_verdict s).1;
            admitted = admitted;
            stored = refl;
            ceiling = elim (Bool-cases c.is_auth) [
              | inl auth ↦ inl (auth, ground arith)
              | inr plain ↦
                  let (fits, last) =
                    verdict_served (ceiling_verdict (class_verdict s).1).0
                      (ceiling_verdict (class_verdict s).1).1 s' (λ s1. (served, s1))
                      (sym (ceiling_is_on _ _ plain) ∙ rest) in
                  inr (plain, fits, ground arith)
            ];
          }

  -- With the stage enabled on the memory store, a request that is not allow-listed and is served
  -- was admitted by its class's bucket and then, unless it is an authentication path, by the
  -- global ceiling, and the store is what these calls leave.
  pub served_was-Billed :
      {E : Type 0} (identifier : Text) (req : Request) (now : ℤ) (s s' : MemoryStore)
      → cfg.enabled ≡ true
      → rate_limit glob cfg rules health_paths
          (some (memory_call {E = E}))
          false
          identifier
          req
          now
          s
        ≡ (served, s')
      → Billed (class_of req) identifier now s s'
  unfolding rate_limit
  served_was-Billed {E} identifier req now s s' on h =
      billed (class_of req) identifier now {E = E} s s' (sym (gate_on cfg.enabled _ _ on) ∙ h)
