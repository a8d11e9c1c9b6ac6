-- ===== src/Link/Limiter.antt =====
-- core/src/link/limiter.rs: the handshake limiter. Times are `u64` microseconds; a map is a `Table`.
pub mod Tickets
pub mod Rate
use racnet.Prelude.{
  ℕ, ◌+◌, ◌-◌, ◌*◌, ◌/◌, Bool, true, false, Option, none, some, List, [], ◌∷◌, map, Bytes, ltb, leb,
  ◌==◌, length, if◌then◌else◌, min, u64_max, Table, lookup, insert, remove, retain, nat_eq,
  bytes_eq, Hashable,
}

pub record LimiterConfig : Type 0 where
  pub burst : ℕ
  pub refill_interval_us : ℕ
  pub max_half_open : ℕ
  pub half_open_timeout_us : ℕ

-- `LimiterConfig::default`
abbrev pub default_config : LimiterConfig
default_config = record {
  burst = 3;
  refill_interval_us = 5000000;
  max_half_open = 32;
  half_open_timeout_us = 30000000;
}

pub record Bucket : Type 0 where
  pub tokens : ℕ
  pub last_refill_us : ℕ

pub record HandshakeLimiter : Type 0 where
  pub config : LimiterConfig
  pub buckets : Table Bytes Bucket
  pub half_open : Table ℕ ℕ
  pub next_ticket : ℕ

unfoldable pub new : LimiterConfig → HandshakeLimiter
new config = record { config = config; buckets = []; half_open = []; next_ticket = 0 }

-- `saturating_add` and `saturating_mul` of the unsigned type with the given maximum.
abbrev pub saturating_add : ℕ → ℕ → ℕ → ℕ
saturating_add most a b = min most (a + b)

abbrev pub saturating_mul : ℕ → ℕ → ℕ → ℕ
saturating_mul most a b = min most (a * b)

-- `self.buckets.entry(addr).or_insert(..)`
unfoldable pub entry : LimiterConfig → Table Bytes Bucket → Bytes → ℕ → Bucket
entry config buckets addr now = elim (lookup addr buckets) [
  | none ↦ record { tokens = config.burst; last_refill_us = now }
  | some bucket ↦ bucket
]

-- The lazy refill. `checked_div` gives `None` for an interval of 0, and the pattern `1..` takes no
-- refill of 0.
unfoldable pub refill : LimiterConfig → ℕ → Bucket → Bucket
refill config now b =
    let refilled = (now - b.last_refill_us) / config.refill_interval_us in
    if config.refill_interval_us == 0 then b else if refilled == 0 then b else record {
      tokens = min (saturating_add 4294967295 b.tokens (min refilled config.burst)) config.burst;
      last_refill_us = b.last_refill_us + refilled * config.refill_interval_us;
    }

-- The test of `retain`: a bucket that would not be full after a refill.
unfoldable pub is_kept : LimiterConfig → ℕ → Bytes → Bucket → Bool
is_kept config now addr b =
    ltb (now - b.last_refill_us)
      (saturating_mul u64_max (config.burst - b.tokens) config.refill_interval_us)

unfoldable pub admit : HandshakeLimiter → Bytes → ℕ → Option ℕ × HandshakeLimiter
admit l addr now =
    let bucket = refill l.config now (entry l.config l.buckets addr now) in
    let spent : Bucket = record bucket { tokens = bucket.tokens - 1 } in
    if leb l.config.max_half_open (length l.half_open)
    then (none, l)
    else if bucket.tokens == 0
    then (none, record l { buckets = insert addr bucket l.buckets })
    else (
      some l.next_ticket,
      record l {
        buckets = retain (is_kept l.config now) (insert addr spent l.buckets);
        half_open =
            insert l.next_ticket (saturating_add u64_max now l.config.half_open_timeout_us)
              l.half_open;
        next_ticket = l.next_ticket + 1;
      },
    )

unfoldable pub established : HandshakeLimiter → ℕ → HandshakeLimiter
established l ticket = record l { half_open = remove ticket l.half_open }

unfoldable pub closed : HandshakeLimiter → ℕ → HandshakeLimiter
closed l ticket = record l { half_open = remove ticket l.half_open }

-- The tickets whose deadline has passed.
unfoldable pub due : ℕ → Table ℕ ℕ → List ℕ
due now [] = []
due now ((ticket, deadline) ∷ t) =
    let rest = due now t in if leb deadline now then ticket ∷ rest else rest

-- `for ticket in &expired { self.half_open.remove(ticket); }`
unfoldable pub remove_all : List ℕ → Table ℕ ℕ → Table ℕ ℕ
remove_all [] t = t
remove_all (ticket ∷ tickets) t = remove_all tickets (remove ticket t)

unfoldable pub expire : HandshakeLimiter → ℕ → List ℕ × HandshakeLimiter
expire l now =
    let expired = due now l.half_open in
    (expired, record l { half_open = remove_all expired l.half_open })

unfoldable pub half_open_count : HandshakeLimiter → ℕ
half_open_count l = length l.half_open
