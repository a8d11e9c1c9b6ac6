-- ===== src/Link/Limiter/Tickets.antt =====
-- The half-open handshakes of core/src/link/limiter.rs: the cap, fresh tickets, deadlines.
use racnet.Prelude.{
  ℕ, ◌+◌, ◌-◌, ◌≤◌, ◌<◌, ◌≡◌, ◌↔◌, ◌⊎◌, inl, inr, refl, ◌∙◌, Bool, true, false, Option, none, some,
  List, [], ◌∷◌, Bytes, leb, ◌==◌, length, if◌then◌else◌, min, u64_max, Table, lookup, insert,
  remove, retain, nat_eq, bytes_eq, arith, lookup-insert, lookup-remove, length-insert_new,
  length-remove, HasDistinctKeys, HasDistinctKeys-insert, HasDistinctKeys-remove,
  HasDistinctKeys-retain, lookup-retain, Bool-cases, Option-cases, contains_key-lookup, ==_iff,
  leb→le, leb→gt, subst,
}
use racnet.Link.Limiter.{
  HandshakeLimiter, LimiterConfig, Bucket, new, entry, refill, admit, established, closed, due,
  remove_all, expire, is_kept, half_open_count, saturating_add,
}

-- The state between calls: the keys of both maps are distinct, no bucket holds more than the burst,
-- every ticket out has been issued, and the half-open handshakes are within the cap.
pub record IsValid (l : HandshakeLimiter) : Type 0 where
  pub distinct_buckets : HasDistinctKeys l.buckets
  pub distinct_tickets : HasDistinctKeys l.half_open
  pub within_burst :
      (a : Bytes) (b : Bucket) → lookup a l.buckets ≡ some b → b.tokens ≤ l.config.burst
  pub issued : (t d : ℕ) → lookup t l.half_open ≡ some d → t < l.next_ticket
  pub within_cap : length l.half_open ≤ l.config.max_half_open

pub new-IsValid : (c : LimiterConfig) → IsValid (new c)
unfolding new lookup
new-IsValid c = record {
  distinct_buckets = tt;
  distinct_tickets = tt;
  within_burst = λ a b e. cc;
  issued = λ t d e. cc;
  within_cap = omega arith;
}

fresh : (l : HandshakeLimiter) → IsValid l → lookup l.next_ticket l.half_open ≡ none
fresh l v = elim (Option-cases (lookup l.next_ticket l.half_open)) [
  | inl e ↦ e
  | inr (d, e) ↦ absurd (omega (arith, v.issued l.next_ticket d e))
]

pub entry_tokens :
    (l : HandshakeLimiter) (a : Bytes) (now : ℕ)
    → IsValid l
    → (entry l.config l.buckets a now).tokens ≤ l.config.burst
unfolding entry
entry_tokens l a now v = elim (Option-cases (lookup a l.buckets)) [
  | inl e ↦ ground (arith, e)
  | inr (b, e) ↦ ground (arith, e, v.within_burst a b e)
]

pub refill_tokens :
    (c : LimiterConfig) (now : ℕ) (b : Bucket)
    → b.tokens ≤ c.burst
    → (refill c now b).tokens ≤ c.burst
unfolding refill
refill_tokens c now b h = ground arith

abbrev Within : ℕ → Table Bytes Bucket → Type 0
Within burst t = (a : Bytes) (b : Bucket) → lookup a t ≡ some b → b.tokens ≤ burst

insert-Within :
    (burst : ℕ) (t : Table Bytes Bucket) (a : Bytes) (b : Bucket)
    → Within burst t
    → b.tokens ≤ burst
    → Within burst (insert a b t)
insert-Within burst t a b h hb a' b' e = ground (arith, lookup-insert a a' b t, h a' b')

retain-Within :
    (c : LimiterConfig) (now burst : ℕ) (t : Table Bytes Bucket)
    → HasDistinctKeys t
    → Within burst t
    → Within burst (retain (is_kept c now) t)
retain-Within c now burst t d h a b e = elim (Option-cases (lookup a t)) [
  | inl n ↦ ground (arith, n, lookup-retain (is_kept c now) a t d)
  | inr (b', s) ↦ ground (arith, s, lookup-retain (is_kept c now) a t d, h a b' s)
]

-- The state after the refusal of an empty bucket, and after an admission.
unfoldable pub refused : HandshakeLimiter → Bytes → Bucket → HandshakeLimiter
refused l a b = record l { buckets = insert a b l.buckets }

refused-IsValid :
    (l : HandshakeLimiter) (a : Bytes) (b : Bucket)
    → IsValid l
    → b.tokens ≤ l.config.burst
    → IsValid (refused l a b)
unfolding refused
refused-IsValid l a b v h = record {
  distinct_buckets = HasDistinctKeys-insert a b l.buckets v.distinct_buckets;
  distinct_tickets = v.distinct_tickets;
  within_burst = insert-Within l.config.burst l.buckets a b v.within_burst h;
  issued = v.issued;
  within_cap = v.within_cap;
}

unfoldable pub admitted : HandshakeLimiter → Bytes → Bucket → ℕ → HandshakeLimiter
admitted l a b now = record l {
  buckets = retain (is_kept l.config now) (insert a b l.buckets);
  half_open =
      insert l.next_ticket (saturating_add u64_max now l.config.half_open_timeout_us) l.half_open;
  next_ticket = l.next_ticket + 1;
}

admitted-IsValid :
    (l : HandshakeLimiter) (a : Bytes) (b : Bucket) (now : ℕ)
    → IsValid l
    → b.tokens ≤ l.config.burst
    → length l.half_open < l.config.max_half_open
    → IsValid (admitted l a b now)
unfolding admitted
admitted-IsValid l a b now v h room =
    let deadline = saturating_add u64_max now l.config.half_open_timeout_us in
    let inserted = HasDistinctKeys-insert a b l.buckets v.distinct_buckets in
    record {
      distinct_buckets = HasDistinctKeys-retain (is_kept l.config now) _ inserted;
      distinct_tickets =
          HasDistinctKeys-insert l.next_ticket deadline l.half_open v.distinct_tickets;
      within_burst =
          retain-Within l.config now l.config.burst _ inserted
            (insert-Within l.config.burst l.buckets a b v.within_burst h);
      issued =
          λ t d e. ground (arith, lookup-insert l.next_ticket t deadline l.half_open, v.issued t d);
      within_cap = omega (arith, length-insert_new l.next_ticket deadline l.half_open (fresh l v));
    }

-- The three answers of `admit`, with the state after each.
pub admit-cases :
    (l : HandshakeLimiter) (a : Bytes) (now : ℕ)
    → let b = refill l.config now (entry l.config l.buckets a now) in
      ((l.config.max_half_open ≤ length l.half_open) × (admit l a now ≡ (none, l)))
      ⊎ ((length l.half_open < l.config.max_half_open)
          × (b.tokens ≡ 0)
          × (admit l a now ≡ (none, refused l a b)))
      ⊎ ((length l.half_open < l.config.max_half_open)
          × (0 < b.tokens)
          × (admit l a now
              ≡ (some l.next_ticket, admitted l a (record b { tokens = b.tokens - 1 }) now)))
unfolding admit refused admitted
admit-cases l a now =
    let tokens = (refill l.config now (entry l.config l.buckets a now)).tokens in
    elim (Bool-cases (leb l.config.max_half_open (length l.half_open))) [
      | inl full ↦ inl (leb→le _ _ full, rw full)
      | inr room ↦ elim (Bool-cases (tokens == 0)) [
        | inl empty ↦ inr (inl (leb→gt _ _ room, (==_iff _ _).0 empty, rw (room, empty)))
        | inr some_left ↦ inr (inr (leb→gt _ _ room, ground arith, rw (room, some_left)))
      ]
    ]

admit-IsValid : (l : HandshakeLimiter) (a : Bytes) (now : ℕ) → IsValid l → IsValid (admit l a now).1
admit-IsValid l a now v =
    let b = refill l.config now (entry l.config l.buckets a now) in
    let hb = refill_tokens l.config now _ (entry_tokens l a now v) in
    elim (admit-cases l a now) [
      | inl (_, e) ↦ rw e v
      | inr (inl (_, _, e)) ↦ rw e (refused-IsValid l a b v hb)
      | inr (inr (room, _, e)) ↦
          rw e (admitted-IsValid l a (record b { tokens = b.tokens - 1 }) now v (omega arith) room)
    ]

-- A ticket that `admit` hands out is not out already, its deadline is the timeout from now (at most
-- `u64::MAX`), and the other tickets keep theirs.
pub admit_ticket :
    (l l' : HandshakeLimiter) (a : Bytes) (now ticket : ℕ)
    → IsValid l
    → admit l a now ≡ (some ticket, l')
    → (lookup ticket l.half_open ≡ none)
      × ((t : ℕ)
          → lookup t l'.half_open ≡ (
              if ticket == t
              then some (min u64_max (now + l.config.half_open_timeout_us))
              else lookup t l.half_open))
unfolding admitted
admit_ticket l l' a now ticket v e = elim (admit-cases l a now) [
  | inl (_, r) ↦ ground (arith, r)
  | inr (inl (_, _, r)) ↦ ground (arith, r)
  | inr (inr (_, _, r)) ↦ (
    ground (arith, r, fresh l v),
    λ t. ground (
      arith,
      r,
      lookup-insert l.next_ticket t (min u64_max (now + l.config.half_open_timeout_us)) l.half_open,
    ),
  )
]

remove-IsValid :
    (l : HandshakeLimiter) (ticket : ℕ)
    → IsValid l
    → IsValid (record l { half_open = remove ticket l.half_open })
remove-IsValid l ticket v = record {
  distinct_buckets = v.distinct_buckets;
  distinct_tickets = HasDistinctKeys-remove ticket l.half_open v.distinct_tickets;
  within_burst = v.within_burst;
  issued = λ t d e. ground (arith, lookup-remove ticket t l.half_open, v.issued t d);
  within_cap = omega (arith, v.within_cap, length-remove ticket l.half_open);
}

remove_all-IsValid :
    (tickets : List ℕ) (l : HandshakeLimiter)
    → IsValid l
    → IsValid (record l { half_open = remove_all tickets l.half_open })
unfolding remove_all
remove_all-IsValid [] l v = v
remove_all-IsValid (ticket ∷ tickets) l v =
    remove_all-IsValid tickets (record l { half_open = remove ticket l.half_open })
      (remove-IsValid l ticket v)

expire-IsValid : (l : HandshakeLimiter) (now : ℕ) → IsValid l → IsValid (expire l now).1
unfolding expire
expire-IsValid l now v = remove_all-IsValid (due now l.half_open) l v

-- The limiter's owner may call its operations in any order, at any times.
pub data Step : HandshakeLimiter → HandshakeLimiter → Type 0 where
  admits : (l : HandshakeLimiter) (a : Bytes) (now : ℕ) → Step l (admit l a now).1
  establishes : (l : HandshakeLimiter) (ticket : ℕ) → Step l (established l ticket)
  closes : (l : HandshakeLimiter) (ticket : ℕ) → Step l (closed l ticket)
  expires : (l : HandshakeLimiter) (now : ℕ) → Step l (expire l now).1

pub data Reach (start : HandshakeLimiter) : HandshakeLimiter → Type 0 where
  here : Reach start start
  next : {l l' : HandshakeLimiter} → Reach start l → Step l l' → Reach start l'

pub Step-IsValid : {l l' : HandshakeLimiter} → Step l l' → IsValid l → IsValid l'
unfolding established closed
Step-IsValid (admits l a now) v = admit-IsValid l a now v
Step-IsValid (establishes l ticket) v = remove-IsValid l ticket v
Step-IsValid (closes l ticket) v = remove-IsValid l ticket v
Step-IsValid (expires l now) v = expire-IsValid l now v

pub Step-config : {l l' : HandshakeLimiter} → Step l l' → l'.config ≡ l.config
unfolding established closed expire admit
Step-config (admits l a now) = ground arith
Step-config (establishes l ticket) = refl
Step-config (closes l ticket) = refl
Step-config (expires l now) = refl

-- Whatever calls have been made on a new limiter, its state is well formed and no more handshakes are
-- half-open than the configuration allows.
pub Reach-IsValid :
    {c : LimiterConfig} {l : HandshakeLimiter}
    → Reach (new c) l
    → IsValid l × (half_open_count l ≤ c.max_half_open) × (l.config ≡ c)
unfolding half_open_count new
Reach-IsValid {c} here = (new-IsValid c, (new-IsValid c).within_cap, refl)
Reach-IsValid {c} (next {l = l} {l' = l'} r s) =
    let (v, _, e) = Reach-IsValid r in
    let v' = Step-IsValid s v in
    let e' = Step-config s ∙ e in
    (v', subst (λ (k : LimiterConfig). length l'.half_open ≤ k.max_half_open) e' v'.within_cap, e')

abbrev pub elem : ℕ → List ℕ → Bool
elem t [] = false
elem t (x ∷ xs) = if x == t then true else elem t xs

lookup-remove_all :
    (ts : List ℕ) (t : ℕ) (h : Table ℕ ℕ)
    → lookup t (remove_all ts h) ≡ (if elem t ts then none else lookup t h)
unfolding remove_all
lookup-remove_all [] t h = refl
lookup-remove_all (x ∷ ts) t h =
    ground (arith, lookup-remove_all ts t (remove x h), lookup-remove x t h)

is_due : ℕ → Option ℕ → Bool
is_due now none = false
is_due now (some deadline) = leb deadline now

elem-due :
    (now t : ℕ) (h : Table ℕ ℕ) → HasDistinctKeys h → elem t (due now h) ≡ is_due now (lookup t h)
unfolding due lookup is_due
elem-due now t [] d = refl
elem-due now t ((x, deadline) ∷ h) (n, d) =
    ground (arith, elem-due now t h d, contains_key-lookup x h n)

-- `expire` returns exactly the tickets whose deadline has passed, takes these out, so that no later
-- call returns them, and leaves every other ticket with its deadline.
pub expire_exact :
    (l : HandshakeLimiter) (now t : ℕ)
    → IsValid l
    → ((elem t (expire l now).0 ≡ true)
        ↔ ((deadline : ℕ) × (lookup t l.half_open ≡ some deadline) × (deadline ≤ now)))
      × (lookup t (expire l now).1.half_open
          ≡ (if elem t (expire l now).0 then none else lookup t l.half_open))
unfolding expire is_due
expire_exact l now t v = (
  (
    λ e. elim (Option-cases (lookup t l.half_open)) [
      | inl n ↦ ground (arith, elem-due now t l.half_open v.distinct_tickets, n)
      | inr (d, s) ↦ (d, s, ground (arith, elem-due now t l.half_open v.distinct_tickets, s))
    ],
    λ h. let (d, s, p) = h in ground (arith, elem-due now t l.half_open v.distinct_tickets, s, p),
  ),
  lookup-remove_all (due now l.half_open) t l.half_open,
)
