-- ===== src/Link/Runs.antt =====
-- The handshake limiter at concrete inputs.
use racnet.Prelude.{
  ℕ, ◌+◌, ◌*◌, ◌-◌, ◌≤◌, ◌≡◌, ◌↔◌, refl, true, none, some, [], ◌∷◌, Bytes, arith, min, u64_max,
  lookup, insert, retain, ◌==◌, if◌then◌else◌, nat_eq, bytes_eq,
}
use racnet.Link.Limiter.{
  HandshakeLimiter, default_config, new, admit, refill, entry, is_kept, expire, half_open_count,
}
use racnet.Link.Limiter.Tickets.{
  IsValid, Step, Reach, here, next, Reach-IsValid, admit_ticket, expire_exact, elem, new-IsValid,
}
use racnet.Link.Limiter.Rate.{Run, begin, admissions_bounded, admit_ready}

abbrev phone : Bytes
phone = 1 ∷ 2 ∷ []

abbrev start : HandshakeLimiter
start = new default_config

abbrev once : HandshakeLimiter
once = (admit start phone 100).1

Reach-once : Reach start once
Reach-once = next here (Step.admits start phone 100)

Reach-IsValid_example : IsValid once × (half_open_count once ≤ 32) × (once.config ≡ default_config)
Reach-IsValid_example = Reach-IsValid Reach-once

start-IsValid : IsValid start
start-IsValid = new-IsValid default_config

first_ticket : admit start phone 100 ≡ (some 0, once)
unfolding admit new lookup refill entry
first_ticket = refl

admit_ticket_example :
    (lookup 0 start.half_open ≡ none)
    × ((t : ℕ)
        → lookup t once.half_open ≡ (
            if 0 == t
            then some (min u64_max (100 + start.config.half_open_timeout_us))
            else lookup t start.half_open))
admit_ticket_example = admit_ticket start once phone 100 0 start-IsValid first_ticket

expire_exact_example :
    ((elem 0 (expire once 30000100).0 ≡ true)
      ↔ ((deadline : ℕ) × (lookup 0 once.half_open ≡ some deadline) × (deadline ≤ 30000100)))
    × (lookup 0 (expire once 30000100).1.half_open
        ≡ (if elem 0 (expire once 30000100).0 then none else lookup 0 once.half_open))
expire_exact_example = expire_exact once 30000100 0 (Reach-IsValid Reach-once).0

four_calls :
    Run phone start 100 3
      (admit (admit (admit (admit start phone 100).1 phone 200).1 phone 300).1 phone 400).1
      400
unfolding admit new refill entry lookup insert retain is_kept
four_calls =
    Run.admits phone 400
      (Run.admits phone 300
        (Run.admits phone 200 (Run.admits phone 100 begin (omega arith)) (omega arith))
        (omega arith))
      (omega arith)

admissions_bounded_example : 3 * 5000000 ≤ 3 * 5000000 + (400 - 100)
admissions_bounded_example =
    admissions_bounded default_config (omega arith) (omega arith) four_calls

admit_ready_example : (admit start phone 100).0 ≡ some start.next_ticket
unfolding new lookup
admit_ready_example =
    admit_ready start phone 100 start-IsValid (omega arith) (omega arith) (λ b e. cc)
