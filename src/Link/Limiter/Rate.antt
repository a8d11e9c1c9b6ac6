-- ===== src/Link/Limiter/Rate.antt =====
-- The token buckets of core/src/link/limiter.rs: how many handshakes one address is admitted for.
use racnet.Prelude.{
  ℕ, zero, suc, ◌+◌, ◌-◌, ◌*◌, ◌/◌, ◌≤◌, ◌<◌, ◌≡◌, ◌⊎◌, inl, inr, refl, sym, ap, ◌∙◌, Bool, true,
  false, Option, none, some, Bytes, ltb, ◌==◌, length, if◌then◌else◌, min, u64_max, Table, lookup,
  insert, nat_eq, bytes_eq, arith, lookup-insert, HasDistinctKeys-insert, lookup-retain, kept,
  Bool-cases, Option-cases, ◌=?◌, subst, bytes_beq_iff, ==_iff, ltb→ge,
}
use native.Mathlib.Nat.{div-mul-le_self, lt-div-mul-add, mul-le-mul_right}
use racnet.Link.Limiter.{
  HandshakeLimiter, LimiterConfig, Bucket, new, entry, refill, admit, established, closed, expire,
  is_kept,
}
use racnet.Link.Limiter.Tickets.{
  Step, Step-IsValid, Step-config, new-IsValid, IsValid, admit-cases, admitted, refused,
  refill_tokens, entry_tokens,
}

-- What an address may still draw, in microseconds of refill. A missing bucket counts as a full one.
abbrev credit_of : LimiterConfig → ℕ → Option Bucket → ℕ
credit_of c now none = c.burst * c.refill_interval_us
credit_of c now (some b) =
    min (c.burst * c.refill_interval_us + (c.refill_interval_us - 1))
      (b.tokens * c.refill_interval_us + (now - b.last_refill_us))

abbrev pub credit : HandshakeLimiter → Bytes → ℕ → ℕ
credit l a now = credit_of l.config now (lookup a l.buckets)

refill_exact :
    (i d t t' : ℕ)
    → 0 < i
    → t' ≤ t + d / i
    → (t' * i + (d - d / i * i) ≤ t * i + d) × (d - d / i * i < i)
refill_exact i d t t' hi h =
    let below = div-mul-le_self d i in
    let above = lt-div-mul-add {a = d} hi in
    let scaled = mul-le-mul_right i h in (omega arith, omega arith)

-- After the refill less than an interval is left over, and nothing has been gained.
refill_credit :
    (c : LimiterConfig) (now : ℕ) (b : Bucket)
    → 0 < c.refill_interval_us
    → ((refill c now b).tokens * c.refill_interval_us + (now - (refill c now b).last_refill_us)
        ≤ b.tokens * c.refill_interval_us + (now - b.last_refill_us))
      × (now - (refill c now b).last_refill_us < c.refill_interval_us)
unfolding refill
refill_credit c now b hi =
    let i = c.refill_interval_us in
    let d = now - b.last_refill_us in
    let t' = min (min 4294967295 (b.tokens + min (d / i) c.burst)) c.burst in
    elim (Bool-cases (i == 0)) [
      | inl z ↦ absurd (omega (arith, (==_iff i 0).0 z))
      | inr nz ↦ elim (Bool-cases (d / i == 0)) [
        | inl z ↦
            rw (nz, z)
              (
                omega arith,
                omega (
                  arith,
                  (==_iff _ _).0 z,
                  lt-div-mul-add {a = d} hi,
                  ap (λ (q : ℕ). q * i) ((==_iff _ _).0 z),
                ),
              )
        | inr some_left ↦
            rw (nz, some_left)
              (let (low, rest) = refill_exact i d b.tokens t' hi (omega arith) in
                (omega arith, omega arith))
      ]
    ]

-- A bucket that an admission has drawn from: it paid one interval.
spend_credit :
    (c : LimiterConfig) (now : ℕ) (b : Bucket)
    → 0 < c.refill_interval_us
    → b.tokens ≤ c.burst
    → 0 < (refill c now b).tokens
    → (refill c now b).tokens ≤ c.burst
    → c.refill_interval_us
        + (((refill c now b).tokens - 1) * c.refill_interval_us
            + (now - (refill c now b).last_refill_us))
      ≤ credit_of c now (some b)
spend_credit c now b hi hb pos hr =
    let i = c.refill_interval_us in
    let t' = (refill c now b).tokens in
    let (low, rest) = refill_credit c now b hi in
    let scaled = mul-le-mul_right i hr in
    let one : (t' - 1) * i + i ≡ t' * i = spend_one i t' pos in omega arith
  where
    spend_one : (i t : ℕ) → 0 < t → (t - 1) * i + i ≡ t * i
    spend_one i zero h = absurd (omega arith)
    spend_one i (suc t) h = grind arith

split_product : (n t i : ℕ) → n * i ≤ (n - t) * i + t * i
split_product n t i =
    let whole : n ≤ (n - t) + t = omega arith in
    let scaled = mul-le-mul_right i whole in omega (arith, right_distrib (n - t) t i)
  where
    right_distrib : (a b k : ℕ) → (a + b) * k ≡ a * k + b * k
    right_distrib a b k = grind arith

-- Dropping a bucket that would be full anyway gains nothing.
kept_credit :
    (c : LimiterConfig) (now : ℕ) (a : Bytes) (o : Option Bucket)
    → 0 < c.refill_interval_us
    → c.burst * c.refill_interval_us ≤ u64_max
    → credit_of c now (kept (is_kept c now) a o) ≤ credit_of c now o
unfolding is_kept
kept_credit c now a none hi hu = omega arith
kept_credit c now a (some b) hi hu =
    let i = c.refill_interval_us in
    let split = split_product c.burst b.tokens i in
    let smaller : c.burst - b.tokens ≤ c.burst = omega arith in
    let scaled = mul-le-mul_right i smaller in
    elim (Bool-cases (ltb (now - b.last_refill_us) (min u64_max ((c.burst - b.tokens) * i)))) [
      | inl stays ↦ rw stays (omega arith)
      | inr dropped ↦ rw dropped (omega (arith, ltb→ge _ _ dropped))
    ]

entry_credit :
    (c : LimiterConfig) (now : ℕ) (a : Bytes) (t : Table Bytes Bucket)
    → credit_of c now (some (entry c t a now)) ≤ credit_of c now (lookup a t)
unfolding entry
entry_credit c now a t = elim (Option-cases (lookup a t)) [
  | inl e ↦ rw (e, entry) (omega arith)
  | inr (b, e) ↦ rw (e, entry) (omega arith)
]

-- 1 if the call for `b` was answered by a ticket and `b` is `a`.
abbrev pub hit : Bytes → Bytes → Option ℕ → ℕ
hit a b none = 0
hit a b (some ticket) = if b =? a then 1 else 0

abbrev pub IsLimiting : LimiterConfig → Type 0
IsLimiting c = (0 < c.refill_interval_us) × (c.burst * c.refill_interval_us ≤ u64_max)

-- Writing the bucket of `b` pays `cost` from the credit of `b` and leaves the others'.
insert_credit :
    (c : LimiterConfig) (now cost : ℕ) (a b : Bytes) (x : Bucket) (t : Table Bytes Bucket)
    → cost + credit_of c now (some x) ≤ credit_of c now (lookup b t)
    → (if b =? a then cost else 0) + credit_of c now (lookup a (insert b x t))
      ≤ credit_of c now (lookup a t)
insert_credit c now cost a b x t h = rw lookup-insert (elim (Bool-cases (b =? a)) [
  | inl same ↦ rw same (
      subst (λ k. cost + credit_of c now (some x) ≤ credit_of c now (lookup k t))
        ((bytes_beq_iff b a).0 same) h)
  | inr other ↦ rw other (omega arith)
])

scale_hit :
    (h : Bool) (i x y z : ℕ)
    → x ≤ y
    → (if h then i else 0) + y ≤ z
    → (if h then 1 else 0) * i + x ≤ z
scale_hit true i x y z p q = omega arith
scale_hit false i x y z p q = omega arith

-- An admission costs its address one interval of credit, and no call gains credit for any address.
admit-credit :
    (l : HandshakeLimiter) (a b : Bytes) (now : ℕ)
    → IsValid l
    → IsLimiting l.config
    → hit a b (admit l b now).0 * l.config.refill_interval_us + credit (admit l b now).1 a now
      ≤ credit l a now
unfolding admitted refused
admit-credit l a b now v (hi, hu) =
    let e = entry l.config l.buckets b now in
    let r = refill l.config now e in
    let he = entry_tokens l b now v in
    let (low, rest) = refill_credit l.config now e hi in
    let he' = entry_credit l.config now b l.buckets in
    elim (admit-cases l b now) [
      | inl (_, p) ↦ rw p (omega arith)
      | inr (inl (_, _, p)) ↦
          rw p (ground (arith, insert_credit l.config now 0 a b r l.buckets (omega arith)))
      | inr (inr (room, pos, p)) ↦
          let spent : Bucket = record r { tokens = r.tokens - 1 } in
          let inserted = HasDistinctKeys-insert b spent l.buckets v.distinct_buckets in
          let paid = spend_credit l.config now e hi he pos (refill_tokens l.config now e he) in
          let drawn =
            insert_credit l.config now l.config.refill_interval_us a b spent l.buckets
              (omega arith) in
          let left = kept_credit l.config now a (lookup a (insert b spent l.buckets)) hi hu in
          rw p (
            rw (lookup-retain (is_kept l.config now) a (insert b spent l.buckets) inserted)
              (scale_hit _ _ _ _ _ left drawn))
    ]

-- Calls to a limiter at times that do not decrease, from `start` at `t0` on. The number counts the
-- tickets that `admit` gave out for the address `a`.
pub data Run (a : Bytes) (start : HandshakeLimiter) (t0 : ℕ)
    : ℕ → HandshakeLimiter → ℕ → Type 0 where
  begin : Run a start t0 0 start t0
  admits :
      {n t : ℕ} {l : HandshakeLimiter} (b : Bytes) (now : ℕ)
      → Run a start t0 n l t
      → t ≤ now
      → Run a start t0 (hit a b (admit l b now).0 + n) (admit l b now).1 now
  establishes :
      {n t : ℕ} {l : HandshakeLimiter} (ticket : ℕ)
      → Run a start t0 n l t
      → Run a start t0 n (established l ticket) t
  closes :
      {n t : ℕ} {l : HandshakeLimiter} (ticket : ℕ)
      → Run a start t0 n l t
      → Run a start t0 n (closed l ticket) t
  expires :
      {n t : ℕ} {l : HandshakeLimiter} (now : ℕ)
      → Run a start t0 n l t
      → t ≤ now
      → Run a start t0 n (expire l now).1 now

later_credit :
    (c : LimiterConfig) (o : Option Bucket) (t now : ℕ)
    → t ≤ now
    → credit_of c now o + t ≤ credit_of c t o + now
later_credit c none t now h = omega arith
later_credit c (some b) t now h = omega arith

-- What a run keeps: the credit that is left and the intervals paid for stay within the credit at the
-- start and the time that has passed.
record IsWithin (a : Bytes) (start : HandshakeLimiter) (t0 n : ℕ) (l : HandshakeLimiter) (t : ℕ)
    : Type 0 where
  valid : IsValid l
  same_config : l.config ≡ start.config
  in_order : t0 ≤ t
  balance : n * start.config.refill_interval_us + credit l a t + t0 ≤ credit start a t0 + t

admits-IsWithin :
    (a b : Bytes) (start l : HandshakeLimiter) (t0 n t now : ℕ)
    → IsLimiting start.config
    → IsWithin a start t0 n l t
    → t ≤ now
    → IsWithin a start t0 (hit a b (admit l b now).0 + n) (admit l b now).1 now
admits-IsWithin a b start l t0 n t now lim w order =
    let i = start.config.refill_interval_us in
    let h = hit a b (admit l b now).0 in
    let paid =
      subst
        (λ (c : LimiterConfig).
          h * c.refill_interval_us + credit (admit l b now).1 a now ≤ credit l a now)
        w.same_config (admit-credit l a b now w.valid (subst IsLimiting (sym w.same_config) lim)) in
    let spread : (h + n) * i ≡ h * i + n * i = grind arith in
    record {
      valid = Step-IsValid (Step.admits l b now) w.valid;
      same_config = Step-config (Step.admits l b now) ∙ w.same_config;
      in_order = omega (arith, w.in_order);
      balance = omega (arith, w.balance, later_credit l.config (lookup a l.buckets) t now order);
    }

-- A step that leaves the buckets alone.
other-IsWithin :
    (a : Bytes) (start l l' : HandshakeLimiter) (t0 n t now : ℕ)
    → Step l l'
    → l'.buckets ≡ l.buckets
    → IsWithin a start t0 n l t
    → t ≤ now
    → IsWithin a start t0 n l' now
other-IsWithin a start l l' t0 n t now s e w order =
    let kept_credit' : credit l' a now ≡ credit l a now = rw (Step-config s, e) in
    record {
      valid = Step-IsValid s w.valid;
      same_config = Step-config s ∙ w.same_config;
      in_order = omega (arith, w.in_order);
      balance = omega (arith, w.balance, later_credit l.config (lookup a l.buckets) t now order);
    }

Run-IsWithin :
    {a : Bytes} {start : HandshakeLimiter} {t0 n : ℕ} {l : HandshakeLimiter} {t : ℕ}
    → IsValid start
    → IsLimiting start.config
    → Run a start t0 n l t
    → IsWithin a start t0 n l t
unfolding established closed expire
Run-IsWithin v lim begin = record {
  valid = v;
  same_config = refl;
  in_order = omega arith;
  balance = omega arith;
}
Run-IsWithin {a} {start} {t0} v lim (admits {n = n} {t = t} {l = l} b now r order) =
    admits-IsWithin a b start l t0 n t now lim (Run-IsWithin v lim r) order
Run-IsWithin {a} {start} {t0} v lim (establishes {n = n} {t = t} {l = l} ticket r) =
    other-IsWithin a start l _ t0 n t t (Step.establishes l ticket) refl (Run-IsWithin v lim r)
      (omega arith)
Run-IsWithin {a} {start} {t0} v lim (closes {n = n} {t = t} {l = l} ticket r) =
    other-IsWithin a start l _ t0 n t t (Step.closes l ticket) refl (Run-IsWithin v lim r)
      (omega arith)
Run-IsWithin {a} {start} {t0} v lim (expires {n = n} {t = t} {l = l} now r order) =
    other-IsWithin a start l _ t0 n t now (Step.expires l now) refl (Run-IsWithin v lim r) order

-- From a new limiter on, however the calls for this and for other addresses interleave, the address
-- gets at most the burst of tickets and one more for each refill interval that has passed, where the
-- interval is not 0 and the burst's worth of it fits a `u64`.
pub admissions_bounded :
    {a : Bytes} (c : LimiterConfig) {t0 n : ℕ} {l : HandshakeLimiter} {t : ℕ}
    → 0 < c.refill_interval_us
    → c.burst * c.refill_interval_us ≤ u64_max
    → Run a (new c) t0 n l t
    → n * c.refill_interval_us ≤ c.burst * c.refill_interval_us + (t - t0)
unfolding new lookup
admissions_bounded c hi hu r =
    let w = Run-IsWithin (new-IsValid c) (hi, hu) r in omega (arith, w.balance, w.in_order)

waits_token : (i d t b : ℕ) → 0 < i → i ≤ d → 0 < b → 0 < min (min 4294967295 (t + min (d / i) b)) b
waits_token i d t b hi h hb =
    let above = lt-div-mul-add {a = d} hi in
    let some_left : 0 < d / i = pos_of (d / i) above in omega arith
  where
    pos_of : (q : ℕ) → d < q * i + i → 0 < q
    pos_of zero lt = absurd (omega arith)
    pos_of (suc q) lt = omega arith

refill_ready :
    (c : LimiterConfig) (now : ℕ) (b : Bucket)
    → 0 < c.burst
    → (0 < b.tokens)
      ⊎ ((0 < c.refill_interval_us) × (c.refill_interval_us ≤ now - b.last_refill_us))
    → 0 < (refill c now b).tokens
unfolding refill
refill_ready c now b hb h =
    ground (arith, waits_token c.refill_interval_us (now - b.last_refill_us) b.tokens c.burst)

-- An address is refused for its rate only while its bucket refills: with room under the cap, a bucket
-- that is missing, has a token, or was refilled an interval ago is answered with the next ticket.
pub admit_ready :
    (l : HandshakeLimiter) (a : Bytes) (now : ℕ)
    → IsValid l
    → length l.half_open < l.config.max_half_open
    → 0 < l.config.burst
    → ((b : Bucket)
        → lookup a l.buckets ≡ some b
        → (0 < b.tokens)
          ⊎ ((0 < l.config.refill_interval_us)
              × (l.config.refill_interval_us ≤ now - b.last_refill_us)))
    → (admit l a now).0 ≡ some l.next_ticket
unfolding entry
admit_ready l a now v room hb ready = elim (admit-cases l a now) [
  | inl (full, _) ↦ absurd (omega arith)
  | inr (inl (_, empty, _)) ↦ elim (Option-cases (lookup a l.buckets)) [
    | inl e ↦ absurd (
        omega (
          arith,
          refill_ready l.config now (record { tokens = l.config.burst; last_refill_us = now }) hb
              (inl hb),
          rw (e, entry) at empty,
        ))
    | inr (b, e) ↦
        absurd (omega (arith, refill_ready l.config now b hb (ready b e), rw (e, entry) at empty))
  ]
  | inr (inr (_, _, p)) ↦ rw p
]
