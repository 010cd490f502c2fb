-- ===== src/Tests/Exchange.antt =====
-- Two controllers, on concrete messages.
use csae.Prelude.{
  ℕ, ◌+◌, ◌*◌, ◌≡◌, refl, ◌⊎◌, inl, true, some, List, [], ◌∷◌, ◌++◌, arith, length, replicate,
  length-replicate, All, ok,
}
use csae.Memory.Word.{IsByte}
use csae.Message.Header.Codec
use csae.Message.Print.Laws.{Row, render, Table}
use csae.Packer.{AnyMessage, header, inh, inh_res, state, state2, Storage}
use csae.Packer.Sendable.{IsSendable}
use csae.Packer.Safety.{Returns}
use csae.Controller.Receive.{
  Callback, controller_handler, Received, bytes, failed, socket_recv_thread,
}
use csae.Controller.Receive.Safety.{Meets, socket_recv_thread-Returns}
use csae.Controller.Receive.Heard.{IsHeard, IsTranscript, hears_all}
use csae.Controller.Receive.Exchange.{exchange, receive-coalesced, exchange-hears_all}
use csae.Tests.Handshake.{
  eight, heartbeat_header, heartbeat_header-IsValid, inh_sample, inh_sample-IsValid, inh_res_sample,
  inh_res_sample-IsValid,
}
use csae.Tests.States.{state_sample, state_sample-IsValid}
use csae.Tests.States2.{state2_sample, state2_sample-IsValid}
use csae.Tests.Receiver.{raw_storage}

abbrev stack : ℕ → List ℕ
stack n = replicate n 0

room : (n : ℕ) → length (stack n) ≡ n
room n = length-replicate n 0

abbrev storages : ℕ → Storage
storages n = raw_storage

-- A callback that appends the number of the method to what it has heard.
abbrev digits : Callback ℕ
digits = record {
  on_up_connect_state = λ state s. s * 10 + 8;
  on_down_connect_state = λ state s. s * 10 + 9;
  on_header = λ m s. s * 10 + 1;
  on_inh = λ m s. s * 10 + 2;
  on_inh_res = λ m s. s * 10 + 3;
  on_state = λ m s. s * 10 + 4;
}

abbrev messages : List AnyMessage
messages =
    header heartbeat_header
    ∷ inh inh_sample
    ∷ state2 state2_sample
    ∷ inh_res inh_res_sample
    ∷ state state_sample
    ∷ []

messages-IsSendable : All IsSendable messages
messages-IsSendable = (
  (heartbeat_header-IsValid, inl (record { id_is = refl; type_is = refl; len_is = refl })),
  (
    (
      inh_sample-IsValid,
      record { hw_same = refl; ad_same = refl },
      record { id_is = refl; type_is = refl; len_is = refl },
    ),
    (
      (
        state2_sample-IsValid,
        record { id_is = refl; type_is = refl; len_is = refl },
        refl,
        refl,
        refl,
      ),
      (
        (inh_res_sample-IsValid, record { id_is = refl; type_is = refl; len_is = refl }),
        (
          (
            state_sample-IsValid,
            record { id_is = refl; type_is = refl; len_is = refl },
            refl,
            refl,
          ),
          tt,
        ),
      ),
    ),
  ),
)

eight-IsByte : All IsByte eight
eight-IsByte = (
  omega arith,
  (
    omega arith,
    (omega arith, (omega arith, (omega arith, (omega arith, (omega arith, (omega arith, tt)))))),
  ),
)

messages-IsHeard : All IsHeard messages
messages-IsHeard = (tt, ((omega arith, omega arith), (tt, (tt, (eight-IsByte, tt)))))

exchange-hears_all_example :
    (os : List ℕ) × (exchange stack storages digits messages ([], 0) ≡ ok (os, 1234))
    × IsTranscript [] messages os
unfolding hears_all
exchange-hears_all_example =
    exchange-hears_all storages digits stack room messages [] 0 messages-IsSendable messages-IsHeard

-- Two heartbeats in one chunk.
receive-coalesced_example :
    (rows : List Row) × (socket_recv_thread storages
        (some digits)
        (bytes (Codec.encode heartbeat_header true ++ Codec.encode heartbeat_header true) ∷ [])
        ([], 0)
      ≡ ok (([] ++ (10 ∷ [])) ++ render rows, 1))
    × Table 0 rows (Codec.encode heartbeat_header true)
receive-coalesced_example =
    receive-coalesced storages digits heartbeat_header (Codec.encode heartbeat_header true) [] 0
      heartbeat_header-IsValid (inl (record { id_is = refl; type_is = refl; len_is = refl }))
      (omega (arith, Codec.length-encode heartbeat_header true))

abbrev chunks : List Received
chunks = failed true ∷ bytes (0xf2 ∷ []) ∷ bytes [] ∷ []

-- An interrupted call, a byte, and the end.
socket_recv_thread-Returns_example :
    Returns (socket_recv_thread storages (some digits) chunks ([], 0))
    ⊎ Meets storages (controller_handler (some digits)) chunks (replicate 4096 0)
socket_recv_thread-Returns_example =
    socket_recv_thread-Returns storages (some digits) chunks ([], 0) (λ n. refl)
      (tt, (((omega arith, tt), omega arith), ((tt, omega arith), tt)))
