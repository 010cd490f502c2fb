-- ===== src/Controller/Receive/Exchange.antt =====
-- From one controller to another: packed, queued, sent, received and handed to the callback.
use csae.Prelude.{
  ℕ, ◌+◌, ◌≤◌, ◌<◌, ◌≡◌, refl, ap, ◌∙◌, ◌⊎◌, true, some, List, [], ◌∷◌, ◌++◌, append_assoc, map,
  arith, length, length-append, replicate, length-replicate, All, Run, ok, bind,
}
use csae.Memory.Write.{splice}
use csae.Memory.Write.Laws.{length-splice, put_front-prefix}
use csae.Message.Header.{MessageHeader, heartbeat, heartbeat_res}
use csae.Message.Header.Codec
use csae.Packer.{MessageBuffer, AnyMessage, header, Storage, notify, unpack}
use csae.Packer.Unpack.{IsFramed, unpack-encode_header}
use csae.Packer.Encode.{buffer_of}
use csae.Message.Print.Laws.{Row, render, Table}
use csae.Packer.Sendable.{
  pack_any, IsSendable, wire_of, as_received, pack_any-wire_of, length-wire_of, unpack-wire_of,
}
use csae.Controller.Channel.{started, run}
use csae.Controller.Channel.Drain.{enqueue_all, rounds, run-drains}
use csae.Controller.Receive.{
  Callback, controller_handler, Received, bytes, receive, socket_recv_thread,
}
use csae.Controller.Receive.Heard.{hears, hears_all, IsHeard, IsTranscript, tell-shown, notify-Adds}
use csae.Controller.Receive.Safety.{put_bytes_fits}

-- `Controller::send` of each message, up to the queue.
unfoldable pub pack_all : (ℕ → List ℕ) → List AnyMessage → Run (List MessageBuffer)
unfolding pack_any
pack_all stack [] = ok []
pack_all stack (m ∷ messages) =
    bind (pack_any stack m) (λ p. bind (pack_all stack messages) (λ ps. ok (p ∷ ps)))

-- Each `send` is received by one `recv`.
abbrev pub received_of : List MessageBuffer → List Received
received_of wire = map (λ p. bytes p.bytes) wire

-- One controller packs the messages, queues them and lets its send thread go on until the queue is
-- empty; the other one's receive thread gets what was sent.
unfoldable pub exchange :
    {S : Type 0}
    → (ℕ → List ℕ)
    → (ℕ → Storage)
    → Callback S
    → List AnyMessage
    → List ℕ × S
    → Run (List ℕ × S)
unfolding pack_all run socket_recv_thread
exchange stack raw c messages s = bind (pack_all stack messages) (λ ps.
    socket_recv_thread raw (some c) (received_of (run (enqueue_all ps ++ rounds ps) started).wire)
      s)

module _ (stack : ℕ → List ℕ) (room : (n : ℕ) → length (stack n) ≡ n) where
  pack_all-wire_of :
      (messages : List AnyMessage)
      → All IsSendable messages
      → pack_all stack messages ≡ ok (map (λ m. buffer_of (wire_of m)) messages)
  unfolding pack_all
  pack_all-wire_of [] v = refl
  pack_all-wire_of (m ∷ messages) v =
      rw (pack_any-wire_of stack room m v.0, pack_all-wire_of messages v.1)

received-wires :
    (messages : List AnyMessage)
    → received_of (map (λ m. buffer_of (wire_of m)) messages)
      ≡ map (λ m. bytes (wire_of m)) messages
received-wires [] = refl
received-wires (m ∷ messages) = ap (◌∷◌ (bytes (wire_of m))) (received-wires messages)

-- The first bytes of memory after they were written.
splice-front :
    (bs buf : List ℕ) → length bs ≤ length buf → (rest : List ℕ) × (splice 0 bs buf ≡ bs ++ rest)
unfolding splice
splice-front bs buf h = put_front-prefix bs buf h

module _ {S : Type 0} (raw : ℕ → Storage) (c : Callback S) where
  -- One round that receives some bytes.
  receive-bytes :
      (bs : List ℕ) (rest : List Received) (buf : List ℕ) (s : List ℕ × S)
      → 0 < length bs
      → length bs ≤ length buf
      → receive raw (controller_handler (some c)) (bytes bs ∷ rest) buf s
        ≡ bind
            (unpack
              (raw (length rest))
              (some (splice 0 bs buf))
              (length bs)
              (some (controller_handler (some c)))
              (ok s))
            (λ r.
              bind r.1 (λ s'. receive raw (controller_handler (some c)) rest (splice 0 bs buf) s'))
  unfolding receive
  receive-bytes [] rest buf s p h = absurd (omega arith)
  receive-bytes (b ∷ bs) rest buf s p h = rw (put_bytes_fits (b ∷ bs) buf (omega arith))

  unpack-notifies :
      (m : AnyMessage) (rest buf : List ℕ) (s : List ℕ × S) (n : ℕ)
      → IsSendable m
      → splice 0 (wire_of m) buf ≡ wire_of m ++ rest
      → unpack
          (raw n)
          (some (splice 0 (wire_of m) buf))
          (length (wire_of m))
          (some (controller_handler (some c)))
          (ok s)
        ≡ ok (
          some (as_received m),
          notify (some (controller_handler (some c))) (as_received m) (ok s),
        )
  unpack-notifies m rest buf s n v e =
      rw (e, unpack-wire_of (raw n) (some (controller_handler (some c))) (ok s) m rest v)

  receive-wires :
      (messages : List AnyMessage) (buf : List ℕ) (p : List ℕ × S)
      → All IsSendable messages
      → All IsHeard messages
      → 1049 ≤ length buf
      → (os : List ℕ) × (receive raw
            (controller_handler (some c))
            (map (λ m. bytes (wire_of m)) messages)
            buf
            p
          ≡ ok (os, hears_all c messages p.1))
        × IsTranscript p.0 messages os
  unfolding hears_all
  receive-wires [] buf p v h l = (p.0, unfold receive in refl, refl)
  receive-wires (m ∷ messages) buf p v h l =
      let size = length-wire_of m v.0 in
      let (rest, e) = splice-front (wire_of m) buf (omega arith) in
      let same : length (splice 0 (wire_of m) buf) ≡ length buf =
        length-splice 0 (wire_of m) buf (omega arith) in
      let more = map (λ m. bytes (wire_of m)) messages in
      let (os, told, adds) = notify-Adds c m p v.0 h.0 in
      let (os', e', shows) =
        receive-wires messages (splice 0 (wire_of m) buf) (os, hears c (as_received m) p.1) v.1 h.1
          (omega arith) in
      (
        os',
        receive-bytes (wire_of m) more buf p (omega arith) (omega arith)
            ∙ rw (unpack-notifies m rest buf p (length more) v.0 e) (rw told e'),
        adds messages os' shows,
      )

  -- If one `recv` gives a valid heartbeat, or answer to one, and up to 4080 bytes behind it, the
  -- callback hears the heartbeat and nothing else, whatever messages the other bytes are, and
  -- std::cout gets a line end and a table of the heartbeat's bytes.
  pub receive-coalesced :
      (h : MessageHeader) (post os : List ℕ) (s : S)
      → Codec.IsValid h
      → IsFramed h heartbeat 0 ⊎ IsFramed h heartbeat_res 0
      → length post ≤ 4080
      → (rows : List Row) × (socket_recv_thread raw
            (some c)
            (bytes (Codec.encode h true ++ post) ∷ [])
            (os, s)
          ≡ ok ((os ++ (10 ∷ [])) ++ render rows, c.on_header h s))
        × Table 0 rows (Codec.encode h true)
  unfolding socket_recv_thread
  receive-coalesced h post os s v f short =
      let size : length (Codec.encode h true) ≡ 16 = Codec.length-encode h true in
      let whole : length (Codec.encode h true ++ post) ≡ 16 + length post =
        omega (arith, length-append (Codec.encode h true) post) in
      let room : length (replicate {A = ℕ} 4096 0) ≡ 4096 = length-replicate {A = ℕ} 4096 0 in
      let (rest, e) = splice-front (Codec.encode h true ++ post) (replicate 4096 0) (omega arith) in
      let (rows, told, t) = tell-shown (header h) (c.on_header h) (os, s) (v, f) tt in
      (
        rows,
        receive-bytes (Codec.encode h true ++ post) [] (replicate 4096 0) (os, s) (omega arith)
              (omega arith)
            ∙ rw (e, append_assoc (Codec.encode h true) post rest)
                (rw
                  (unpack-encode_header (raw 0) (some (controller_handler (some c))) (ok (os, s)) h
                    (post ++ rest) (length (Codec.encode h true ++ post)) v f (omega arith))
                  (unfold receive notify controller_handler in rw told)),
        t,
      )

  module _ (stack : ℕ → List ℕ) (room : (n : ℕ) → length (stack n) ≡ n) where
    -- If all messages are sendable (valid, framed as the constructors frame them, without points and
    -- wheels, with versions of one length), the texts of each VEH2CLOUD_INH have less than 128 bytes
    -- and the message id of each state message of version 1 is of bytes, one controller packs them,
    -- queues them, and its send thread goes on until it waits, and each buffer that it sends is what
    -- one `recv` of the other controller gives, then nothing faults, the callback of that controller
    -- hears each message once and in order, a VEH2CLOUD_INH with its first version in the place of
    -- the other two, and a state message of version 2 not at all; std::cout of the other side gets,
    -- behind what it has, for each message that is heard a line end and a table of its bytes, in
    -- order, those of a state message with the two digits of each byte of `message_id` exchanged.
    pub exchange-hears_all :
        (messages : List AnyMessage) (os : List ℕ) (s : S)
        → All IsSendable messages
        → All IsHeard messages
        → (os' : List ℕ) × (exchange stack raw c messages (os, s)
            ≡ ok (os', hears_all c messages s))
          × IsTranscript os messages os'
    unfolding exchange socket_recv_thread
    exchange-hears_all messages os s v h =
        let ps = map (λ m. buffer_of (wire_of m)) messages in
        let (os', e, shows) =
          receive-wires messages (replicate 4096 0) (os, s) v h
            (rw (length-replicate {A = ℕ} 4096 0) (omega arith)) in
        (
          os',
          rw (pack_all-wire_of stack room messages v)
              (rw (run-drains ps) (rw (received-wires messages) e)),
          shows,
        )
