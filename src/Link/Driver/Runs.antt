-- ===== src/Link/Driver/Runs.antt =====
-- The link driver at concrete inputs.
use racnet.Prelude.{ℕ, ◌≡◌, refl, Bytes, List, [], ◌∷◌, none, some, arith, err}
use racnet.Noise.Handshake.{from_secret_bytes}
use racnet.Noise.Runs.{toy}
use racnet.Wire.Payload.{Codec, Cbor, SortKeyWindow}
use racnet.Wire.Msg.{Message, decode_message}
use racnet.Wire.Frame.{FrameDecoder, push, next_body, split_frame}
use racnet.Store.{Item}
use racnet.Store.Runs.{toy_signing, toy_index, toy_journal, empty_store}
use racnet.Sync.Session
use racnet.Sync.Runs.{toy_engine, config}
use racnet.Link.Driver.{
  Call, LinkDriver, LinkDriverConfig, LinkState, LinkEvent, handshake_failed, not_established,
  no_output, new, close_silently, is_established,
}
use racnet.Link.Driver.Versions.{IsHighestCommon, effective_version-IsHighestCommon}
use racnet.Link.Driver.Cleartext.{effective_version, handle_hello_body}
use racnet.Link.Driver.Calls.{
  on_bytes, on_tick, send, open_sync, start, check_timeouts, handle_bodies, handle_body,
}
use racnet.Link.Driver.Silence.{IsQuietOutput}
use racnet.Link.Driver.Silence.Loop.{closed_inert, on_bytes-IsQuietOutput, handle_bodies_fuel}

abbrev pub no_codec : {A : Type 0} → Codec A
no_codec = record { encode = λ _. []; decode = λ _. none }

abbrev pub no_cbor : Cbor
no_cbor = record {
  hello_codec = no_codec;
  handshake_codec = no_codec;
  gossip_push_codec = no_codec;
  recon_init_codec = no_codec;
  recon_msg_codec = no_codec;
  recon_done_codec = no_codec;
  error_codec = no_codec;
}

abbrev link_config : LinkDriverConfig
link_config = record {
  versions = 1 ∷ [];
  features = 0;
  transports = 1 ∷ [];
  max_lifetime_us = 86400000000;
  handshake_timeout_us = 30000000;
  sync = config;
}

abbrev waiting : LinkDriver (List Item)
unfolding new from_secret_bytes Session.new Session.parity
waiting =
    new Session.responder (from_secret_bytes toy (1 ∷ [])) (from_secret_bytes toy (2 ∷ []))
      link_config 0

abbrev dead : LinkDriver (List Item)
unfolding waiting
dead = record waiting { state = LinkState.closed handshake_failed }

abbrev two_frames : Bytes
two_frames = 0 ∷ 1 ∷ 9 ∷ 0 ∷ 1 ∷ 9 ∷ []

closed_inert_example :
    ((now : ℕ) → on_tick now dead ≡ record { link = dead; out = no_output })
    × ((bytes : Bytes) (now : ℕ)
        → on_bytes toy no_cbor toy_signing toy_index toy_journal toy_engine empty_store bytes now
            dead
          ≡ some (empty_store, record { link = dead; out = no_output }))
    × ((msg : Message) → send toy no_cbor msg dead ≡ some (err not_established, dead))
    × ((window : SortKeyWindow)
        → open_sync toy no_cbor toy_signing toy_index toy_journal toy_engine empty_store window dead
          ≡ some (err not_established, dead))
    × (start toy no_cbor dead ≡ some (record { link = dead; out = no_output }))
unfolding dead
closed_inert_example =
    closed_inert toy no_cbor toy_signing toy_index toy_journal toy_engine dead handshake_failed
      empty_store refl

abbrev after : Call (List Item)
unfolding waiting
after = record {
  link = record waiting {
    state = LinkState.closed handshake_failed;
    keys = none;
    decoder = record { buf = 0 ∷ 1 ∷ 9 ∷ [] };
  };
  out = record { frames = []; events = LinkEvent.closed handshake_failed ∷ [] };
}

garbage :
    on_bytes toy no_cbor toy_signing toy_index toy_journal toy_engine empty_store two_frames 1
      waiting
    ≡ some (empty_store, after)
unfolding on_bytes check_timeouts is_established handle_bodies push next_body split_frame
    handle_body handle_hello_body decode_message close_silently waiting after new
garbage = refl

on_bytes-IsQuietOutput_example : IsQuietOutput after.link.state after.out
unfolding waiting
on_bytes-IsQuietOutput_example =
    on_bytes-IsQuietOutput toy no_cbor toy_signing toy_index toy_journal toy_engine waiting
      empty_store empty_store two_frames 1 after refl garbage

abbrev full_decoder : FrameDecoder
full_decoder = record { buf = two_frames }

abbrev now_waiting : Call (List Item)
unfolding waiting
now_waiting = record { link = waiting; out = no_output }

handle_bodies_fuel_example :
    handle_bodies toy no_cbor toy_signing toy_index toy_journal toy_engine 7 full_decoder
      empty_store now_waiting
    ≡ handle_bodies toy no_cbor toy_signing toy_index toy_journal toy_engine 9 full_decoder
        empty_store now_waiting
handle_bodies_fuel_example =
    handle_bodies_fuel toy no_cbor toy_signing toy_index toy_journal toy_engine 7 9 full_decoder
      empty_store now_waiting (omega arith) (omega arith)

effective_version-IsHighestCommon_example :
    IsHighestCommon (1 ∷ 3 ∷ 2 ∷ []) (2 ∷ 1 ∷ []) (effective_version (1 ∷ 3 ∷ 2 ∷ []) (2 ∷ 1 ∷ []))
effective_version-IsHighestCommon_example =
    effective_version-IsHighestCommon (1 ∷ 3 ∷ 2 ∷ []) (2 ∷ 1 ∷ [])
