-- ===== src/Api/Runs.antt =====
-- The node at concrete inputs.
use racnet.Prelude.{
  ◌≡◌, refl, false, List, [], ◌∷◌, ◌++◌, some, arith, insert, remove, lookup, contains_key, nat_eq,
  zeros,
}
use racnet.Noise.Handshake.{Keypair, from_secret_bytes}
use racnet.Noise.Runs.{toy}
use racnet.Wire.Payload.{Entry}
use racnet.Store.{Item}
use racnet.Store.Runs.{toy_signing, toy_index, toy_journal, empty_store}
use racnet.Sync.Session.{responder}
use racnet.Sync.Runs.{toy_engine}
use racnet.Link.Limiter
use racnet.Link.Limiter.{default_config, admit}
use racnet.Link.Driver.Runs.{no_cbor}
use racnet.Api.{transport_closed}
use racnet.Api
use racnet.Api.Node.{NodeInner, add_link, driver_of, clamp_now, retire, on_transport_closed, tick}
use racnet.Api.Calls.{accept, create_entry}
use racnet.Api.Calls
use racnet.Api.Held.{held_verified}
use racnet.Wire.Entry.{Signer}
use racnet.Store.Held.{IsSound}
use racnet.Api.Links.{IsGone, IsBounded, IsLater}
use racnet.Api.Finality.{mentions}
use racnet.Api.Steps.{Step, Run, next, done, ticked, created}
use racnet.Api.Steps
use racnet.Api.Lifetimes.{closed_final, Run-IsLater, accept_fresh}

abbrev NodeType : Type 0
NodeType = NodeInner (List Item) (List Entry) (List Item)

abbrev fresh_node : NodeType
unfolding Limiter.new
fresh_node = record {
  noise_seed = 1 ∷ [];
  signing_key = 2 ∷ [];
  store = empty_store;
  limiter = Limiter.new default_config;
  links = [];
  next_link_id = 0;
  last_now_us = 0;
}

abbrev ephemeral : Keypair
unfolding from_secret_bytes
ephemeral = from_secret_bytes toy (3 ∷ [])

-- A link that waits for the hello of its peer.
abbrev one_link : NodeType
one_link = add_link (driver_of toy responder ephemeral fresh_node) (some 0) fresh_node

one_link-IsBounded : IsBounded one_link
unfolding insert fresh_node
one_link-IsBounded = (omega arith, tt)

abbrev dropped : NodeType
dropped = (on_transport_closed 0 6 one_link).1

abbrev dropping :
    Run toy no_cbor toy_signing toy_index toy_journal toy_engine one_link
      ((on_transport_closed 0 6 one_link).0 ++ [])
      dropped
dropping = next (Steps.transport_closed 0 6) done

transport_closed_test :
    (on_transport_closed 0 6 one_link).0 ≡ (Api.Event.closed 0 transport_closed ∷ [])
unfolding on_transport_closed contains_key insert fresh_node
transport_closed_test = refl

closed_final_example :
    IsGone 0 dropped × IsGone 0 (tick 7 dropped).1 × (mentions 0 ((tick 7 dropped).0 ++ []) ≡ false)
unfolding on_transport_closed contains_key insert fresh_node
closed_final_example =
    closed_final toy no_cbor toy_signing toy_index toy_journal toy_engine one_link dropped
      (tick 7 dropped).1 (on_transport_closed 0 6 one_link).0 ((tick 7 dropped).0 ++ []) 0
      one_link-IsBounded (Steps.transport_closed 0 6) refl (next (ticked 7) done)

Run-IsLater_example : IsLater one_link dropped
Run-IsLater_example =
    Run-IsLater toy no_cbor toy_signing toy_index toy_journal toy_engine one_link dropped
      ((on_transport_closed 0 6 one_link).0 ++ []) dropping

accept_fresh_example :
    (mentions 1 ((on_transport_closed 0 6 one_link).0 ++ []) ≡ false)
    × IsGone 1 one_link
    × IsGone 1 dropped
unfolding on_transport_closed contains_key insert accept clamp_now retire remove lookup admit
    Limiter.entry Limiter.refill Limiter.is_kept Limiter.closed Limiter.new fresh_node
accept_fresh_example =
    accept_fresh toy no_cbor toy_signing toy_index toy_journal toy_engine one_link dropped
      (accept toy no_cbor (some ephemeral) (7 ∷ []) 8 dropped).1
      ((on_transport_closed 0 6 one_link).0 ++ []) (some ephemeral) (7 ∷ []) 8
      (record { link_id = 1; initial_frames = [] }) one_link-IsBounded dropping refl

abbrev toy_signer : Signer
toy_signer = record { verifying_key = λ key. key; sign = λ key message. message }

-- A new node with seeds of 32 zeros.
abbrev started : NodeType
unfolding Limiter.new
started = record {
  noise_seed = zeros 32;
  signing_key = zeros 32;
  store = empty_store;
  limiter = Limiter.new default_config;
  links = [];
  next_link_id = 0;
  last_now_us = 0;
}

abbrev with_entry : NodeType
with_entry =
    (create_entry toy no_cbor toy_signing toy_index toy_journal toy_engine toy_signer 1 (5 ∷ []) 9
      started).1

held_verified_example : IsSound toy_signing toy_index toy_journal with_entry.store
unfolding started Calls.new Limiter.new
held_verified_example =
    held_verified toy no_cbor toy_signing toy_index toy_journal toy_engine
      (record { noise_seed = zeros 32; signing_seed = zeros 32 }) started with_entry ([] ++ []) refl
      (next (created toy_signer 1 (5 ∷ []) 9) done)
