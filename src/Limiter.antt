-- ===== src/Limiter.antt =====
-- internal/core/limiter_db.go, with the rows of rows.go and Grant of limiter.go: a limiter that the
-- processes sharing a database share. Integers that the code keeps from going below 0 are ℕ: the
-- settings that NewDBLimiter accepts, the overrides that SetLimiterBudget accepts, tokens and holds.
-- A grant floored at 0 and a hold deleted at 0 or below are written with the subtraction of ℕ, which
-- stops at 0. The products of refill are int64s, whose wrap-around is written out; the sums of tokens
-- are not wrapped. An Acquire is one transaction under the lock of its bucket row.
pub mod Refill
pub mod Budget
pub mod Config
pub mod Holds
pub mod Permits
use go_flywheel.Base.{
  Bool, List, Option, String, [], any, find, if◌then◌else◌, leb, ltb, min, none, not, select, some,
  str_eq, suc, update_where, ℕ, ◌%◌, ◌&&◌, ◌*◌, ◌++◌, ◌+◌, ◌-◌, ◌/◌, ◌==◌, ◌^◌, ◌||◌, ◌∷◌,
}
use go_flywheel.Base.Int.{leb_ℤ, ltb_ℤ, negsuc, pos, pos_part, sub_ℕ, ℤ}
use go_flywheel.Stats.Hist.{add}
use go_flywheel.Types.{
  Duration, Result, Time, add_time, err, ok, record_not_found, sub_time, ◌>>=◌, ◌>>◌,
}

pub record LimiterConfig : Type 0 where
  pub rate : ℤ
  pub interval : Duration
  pub burst : ℤ
  pub max_concurrent : ℤ
  pub hold_ttl : Duration
  pub sweep_interval : Duration

pub record Limiter : Type 0 where
  pub rate : ℕ
  pub interval : Duration
  pub burst : ℕ
  pub max_concurrent : ℕ
  pub hold_ttl : Duration
  pub sweep_interval : Duration

pub record Bucket : Type 0 where
  pub resource : String
  pub tokens : ℕ
  pub refilled_at : Time
  pub updated_at : Time
  pub max_concurrent_override : Option ℕ
  pub rate_override : Option ℕ
  pub burst_override : Option ℕ

pub record Hold : Type 0 where
  pub token : String
  pub resource : String
  pub n : ℕ
  pub expires_at : Time

-- A token of "" and an instant of 0 are unset.
pub record Grant : Type 0 where
  pub resource : String
  pub n : ℕ
  pub retry_after : Duration
  pub token : String
  pub expires_at : Time

pub record LimiterDb : Type 0 where
  pub buckets : List Bucket
  pub holds : List Hold
  pub minted : ℕ

abbrev or_duration : Duration → Duration → Duration
or_duration value fallback = if leb_ℤ value (pos 0) then fallback else value

-- A minute.
abbrev default_sweep_interval : Duration
default_sweep_interval = pos 60000000000

-- The three refusals of NewDBLimiter.
abbrev pub refused_config : LimiterConfig → Bool
refused_config cfg =
    (ltb_ℤ cfg.rate (pos 0) || ltb_ℤ cfg.burst (pos 0) || ltb_ℤ cfg.max_concurrent (pos 0))
    || ltb_ℤ (pos 0) cfg.rate && leb_ℤ cfg.interval (pos 0)
    || ltb_ℤ (pos 0) cfg.max_concurrent && leb_ℤ cfg.hold_ttl (pos 0)

unfoldable pub new_db_limiter : LimiterConfig → Option Limiter
new_db_limiter cfg =
    if refused_config cfg
    then none
    else some (record {
      rate = pos_part cfg.rate;
      interval = cfg.interval;
      burst =
          if ltb_ℤ (pos 0) cfg.rate && leb_ℤ cfg.burst (pos 0)
          then pos_part cfg.rate
          else pos_part cfg.burst;
      max_concurrent = pos_part cfg.max_concurrent;
      hold_ttl = cfg.hold_ttl;
      sweep_interval =
          or_duration (or_duration cfg.sweep_interval cfg.hold_ttl) default_sweep_interval;
    })

unfoldable pub reads_bucket : Limiter → Bool
reads_bucket l =
    ltb 0 l.rate || ltb 0 l.max_concurrent || ltb_ℤ (pos 0) l.interval || ltb_ℤ (pos 0) l.hold_ttl

-- limiterCaps
pub record Caps : Type 0 where
  pub rate : ℕ
  pub burst : ℕ
  pub max_concurrent : ℕ

abbrev pub override : Option ℕ → Bool → ℕ → ℕ
override none applies configured = configured
override (some n) applies configured = if applies then n else configured

abbrev pub burst_for : Option ℕ → ℕ → ℕ → ℕ
burst_for (some n) configured rate = n
burst_for none configured rate = if configured == 0 then rate else configured

-- capsFor
unfoldable pub caps_for : Limiter → Bucket → Caps
caps_for l b =
    let rate = override b.rate_override (ltb_ℤ (pos 0) l.interval) l.rate in
    record {
      rate = rate;
      burst = burst_for b.burst_override l.burst rate;
      max_concurrent =
          override b.max_concurrent_override (ltb_ℤ (pos 0) l.hold_ttl) l.max_concurrent;
    }

-- A product of two int64s that are not negative: its low 64 bits, read as a signed word.
abbrev pub wrap64 : ℕ → ℤ
wrap64 n = if ltb (n % 2 ^ 64) (2 ^ 63) then pos (n % 2 ^ 64) else negsuc (2 ^ 64 - n % 2 ^ 64 - 1)

-- The quotient of an int64 by a positive one, towards 0.
abbrev pub quotient : ℤ → ℕ → ℤ
quotient (pos n) d = pos (n / d)
quotient (negsuc n) d = sub_ℕ 0 (suc n / d)

-- `int64(elapsed) * int64(c.rate) / int64(l.interval)`, and the span that whole tokens cost.
unfoldable pub earned : ℕ → ℕ → ℕ → ℤ
earned span rate interval = quotient (wrap64 (span * rate)) interval

unfoldable pub cost : ℕ → ℕ → ℕ → ℤ
cost tokens rate interval = quotient (wrap64 (tokens * interval)) rate

-- The refill by a span that does not fill the bucket from empty.
unfoldable pub accrue : Caps → ℕ → Time → Bucket → Bucket
accrue c interval now b =
    let add = earned (now - b.refilled_at) c.rate interval in
    let tokens = min c.burst (b.tokens + pos_part add) in
    if leb_ℤ add (pos 0)
    then b
    else if leb c.burst tokens
    then record b { tokens = tokens; refilled_at = now }
    else record b {
      tokens = tokens;
      refilled_at = add_time b.refilled_at (cost (pos_part add) c.rate interval);
    }

-- A rate in force has a positive interval.
unfoldable pub refill : Limiter → Bucket → Time → Bucket
unfolding caps_for accrue
refill l b now =
    let c = caps_for l b in
    let interval = pos_part l.interval in
    if c.rate == 0 || leb now b.refilled_at
    then b
    else if leb_ℤ (cost c.burst c.rate interval) (pos (now - b.refilled_at))
    then record b { tokens = c.burst; refilled_at = now }
    else accrue c interval now b

-- `wait` where it is positive.
abbrev wait_of : Duration → Duration
wait_of (pos n) = pos n
wait_of (negsuc n) = pos 0

unfoldable pub retry_after : Limiter → ℕ → Time → Time → Caps → Duration
retry_after l tokens now refilled_at c =
    if c.rate == 0 || leb 1 tokens
    then pos 0
    else wait_of (sub_time (refilled_at + pos_part l.interval / c.rate) now)

abbrev pub is_bucket : String → Bucket → Bool
is_bucket resource b = str_eq b.resource resource

-- INSERT … ON CONFLICT DO NOTHING of a full bucket.
unfoldable pub seed_bucket : Limiter → Time → String → List Bucket → List Bucket
seed_bucket l now resource buckets =
    if any (is_bucket resource) buckets
    then buckets
    else buckets
      ++ record {
        resource = resource;
        tokens = l.burst;
        refilled_at = now;
        updated_at = now;
        max_concurrent_override = none;
        rate_override = none;
        burst_override = none;
      }
        ∷ []

abbrev pub on_resource : String → Hold → Bool
on_resource resource h = str_eq h.resource resource

abbrev pub hold_lapsed : String → Time → Hold → Bool
hold_lapsed resource now h = on_resource resource h && ltb h.expires_at now

-- SUM(n) of the holds that a test selects.
abbrev pub sum_n : (Hold → Bool) → List Hold → ℕ
sum_n p [] = 0
sum_n p (h ∷ hs) = let rest = sum_n p hs in if p h then h.n + rest else rest

abbrev pub held_on : String → List Hold → ℕ
held_on resource = sum_n (on_resource resource)

-- The holds after the inline reclaim, which runs where a concurrency cap is in force.
unfoldable pub surviving : Caps → String → Time → List Hold → List Hold
surviving c resource now holds =
    if ltb 0 c.max_concurrent then select (λ h. not (hold_lapsed resource now h)) holds else holds

-- min(ask, tokens, headroom), floored at 0.
unfoldable pub grant_size : Caps → ℕ → ℕ → ℕ → ℕ
grant_size c tokens held n =
    let by_rate = if ltb 0 c.rate && ltb tokens n then tokens else n in
    if ltb 0 c.max_concurrent && ltb (c.max_concurrent - held) by_rate
    then c.max_concurrent - held
    else by_rate

abbrev pub plain_grant : String → ℕ → Grant
plain_grant resource n = record {
  resource = resource;
  n = n;
  retry_after = pos 0;
  token = "";
  expires_at = 0;
}

-- The refilled bucket, held to the burst in force.
unfoldable pub refreshed : Limiter → Time → Bucket → Bucket
refreshed l now b =
    let c = caps_for l b in
    let r = refill l b now in
    if ltb 0 c.rate && ltb c.burst r.tokens then record r { tokens = c.burst } else r

-- The tokens after a grant.
abbrev pub spent : Caps → ℕ → ℕ → ℕ
spent c tokens granted = if ltb 0 c.rate then tokens - granted else tokens

unfoldable pub persist : Time → String → ℕ → Time → List Bucket → List Bucket
persist now resource tokens refilled_at =
    update_where (is_bucket resource)
      (λ r. record r { tokens = tokens; refilled_at = refilled_at; updated_at = now })

-- Steps 2 to 5 of Acquire, on the locked bucket, under caps of which one is in force.
unfoldable pub take_permits :
    Limiter → (ℕ → String) → Time → LimiterDb → String → Bucket → ℕ → LimiterDb × Grant
take_permits l new_id now db resource locked n =
    let c = caps_for l locked in
    let b = refreshed l now locked in
    let holds = surviving c resource now db.holds in
    let held = if ltb 0 c.max_concurrent then held_on resource holds else 0 in
    let granted = grant_size c b.tokens held n in
    let left = spent c b.tokens granted in
    let db' : LimiterDb = record db {
      buckets = persist now resource left b.refilled_at db.buckets;
      holds = holds;
    } in
    let wait = if ltb granted n then retry_after l left now b.refilled_at c else pos 0 in
    let g = record (plain_grant resource granted) { retry_after = wait } in
    if granted == 0 || c.max_concurrent == 0 then (db', g) else (
      record db' {
        holds =
            holds
            ++ record {
              token = new_id db.minted;
              resource = resource;
              n = granted;
              expires_at = add_time now l.hold_ttl;
            }
              ∷ [];
        minted = suc db.minted;
      },
      record g { token = new_id db.minted; expires_at = add_time now l.hold_ttl },
    )

-- lockBucket
abbrev or_no_bucket : Option Bucket → Result Bucket
or_no_bucket none = err record_not_found
or_no_bucket (some b) = ok b

abbrev pub no_caps : Caps → Bool
no_caps c = c.rate == 0 && c.max_concurrent == 0

unfoldable pub acquire :
    Limiter → (ℕ → String) → Time → LimiterDb → String → ℤ → Result (LimiterDb × Grant)
acquire l new_id now db resource n =
    if leb_ℤ n (pos 0)
    then ok (db, plain_grant resource 0)
    else if not (reads_bucket l)
    then ok (db, plain_grant resource (pos_part n))
    else do
      let seeded : LimiterDb = record db { buckets = seed_bucket l now resource db.buckets }
      locked ← or_no_bucket (find (is_bucket resource) seeded.buckets)
      ok (
          if no_caps (caps_for l locked)
          then (seeded, plain_grant resource (pos_part n))
          else take_permits l new_id now seeded resource locked (pos_part n))

abbrev pub has_token : String → Hold → Bool
has_token token h = str_eq h.token token

-- The decrement and the deletion are one transaction.
unfoldable pub release_grant : LimiterDb → Grant → LimiterDb
release_grant db g = if g.n == 0 || str_eq g.token "" then db else record db {
  holds =
      select (λ h. not (has_token g.token h && h.n == 0))
        (update_where (has_token g.token) (λ h. record h { n = h.n - g.n }) db.holds);
}
