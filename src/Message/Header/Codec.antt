-- ===== src/Message/Header/Codec.antt =====
-- The header's fields on the wire, one after the other.
use csae.Prelude.{
  ℕ, ◌+◌, ◌^◌, ◌≤◌, ◌<◌, ◌≡◌, ◌∙◌, append-nil, Bool, false, some, List, [], ◌++◌, arith, leb,
  if◌then◌else◌, le→ltb, length-append, Run, ok, fault,
}
use csae.Prelude
use csae.Memory.Word.{word_bytes, length-word_bytes}
use csae.Memory.Read.Laws.{
  Reads, bind-Reads, map-Reads, get_byte-Reads, get_u32-Reads, get_u64-Reads,
}
use csae.Memory.Read.Safe.{Safe, Any, bind-Safe, done-Safe, get_byte-Safe, get_word-Safe}
use csae.Memory.Write.{splice}
use csae.Memory.Write.Laws.{Writes, seq-Writes, put_byte-Writes, put_word-Writes}
use csae.Memory.Buffer.{keep}
use csae.Memory.Buffer.Laws.{keep-Writes}
use csae.Message.Header.{MessageHeader, sizeof_header, put_fields, get_fields, to_bytes, from_bytes}

-- The 16 bytes of a header.
unfoldable pub encode : MessageHeader → Bool → List ℕ
encode h be =
    word_bytes false 1 h.id
    ++ (word_bytes be 4 h.data_len
        ++ (word_bytes false 1 h.data_type
            ++ (word_bytes false 1 h.version
                ++ (word_bytes be 8 h.timestamp ++ word_bytes false 1 h.ctrl))))

-- Each field fits its C type.
pub record IsValid (h : MessageHeader) : Type 0 where
  pub id_range : h.id < 256
  pub data_len_range : h.data_len < 2 ^ 32
  pub data_type_range : h.data_type < 256
  pub version_range : h.version < 256
  pub timestamp_range : h.timestamp < 2 ^ 64
  pub ctrl_range : h.ctrl < 256

pub length-encode : (h : MessageHeader) (be : Bool) → Prelude.length (encode h be) ≡ sizeof_header
unfolding encode
length-encode h be = simp (length-append, length-word_bytes)

pub put_fields-Writes : (h : MessageHeader) (be : Bool) → Writes (put_fields h be) (encode h be)
unfolding put_fields encode
put_fields-Writes h be = seq-Writes (put_byte-Writes h.id) (
    seq-Writes (put_word-Writes be 4 h.data_len) (
      seq-Writes (put_byte-Writes h.data_type) (
        seq-Writes (put_byte-Writes h.version)
          (seq-Writes (put_word-Writes be 8 h.timestamp) (put_byte-Writes h.ctrl)))))

pub get_fields-Reads :
    (h : MessageHeader) (be : Bool) → IsValid h → Reads (get_fields be) (encode h be) h
unfolding get_fields encode
get_fields-Reads h be v = bind-Reads _ (get_byte-Reads h.id v.id_range) (
    bind-Reads _ (get_u32-Reads be h.data_len v.data_len_range) (
      bind-Reads _ (get_byte-Reads h.data_type v.data_type_range) (
        bind-Reads _ (get_byte-Reads h.version v.version_range) (
          bind-Reads _ (get_u64-Reads be h.timestamp v.timestamp_range)
            (map-Reads _ (get_byte-Reads h.ctrl v.ctrl_range))))))

pub get_fields-Safe : (be : Bool) → Safe (get_fields be) Any sizeof_header
unfolding get_fields
get_fields-Safe be = bind-Safe get_byte-Safe λ _ _.
    bind-Safe (get_word-Safe be 4 (omega arith)) λ _ _. bind-Safe get_byte-Safe λ _ _.
      bind-Safe get_byte-Safe λ _ _.
        bind-Safe (get_word-Safe be 8 (omega arith))
          λ _ _. bind-Safe get_byte-Safe λ _ _. done-Safe _ Any tt

-- A buffer of at least 16 bytes, and a size that says so: the header is written at its start, and
-- 16 is returned; with a buffer that is shorter than that, the writes leave it.
pub to_bytes_lem :
    (h : MessageHeader) (buf : List ℕ) (size : ℕ) (be : Bool)
    → sizeof_header ≤ size
    → to_bytes h (some buf) size be ≡ keep (put_fields h be buf 0)
unfolding to_bytes
to_bytes_lem h buf size be le = rw (le→ltb size sizeof_header le)

pub from_bytes_lem :
    (h : MessageHeader) (buf : List ℕ) (size : ℕ) (be : Bool)
    → sizeof_header ≤ size
    → from_bytes h (some buf) size be ≡ get_fields be buf 0
unfolding from_bytes
from_bytes_lem h buf size be le = rw (le→ltb size sizeof_header le)

-- The same with bytes behind.
pub from_bytes-append :
    (h raw : MessageHeader) (post : List ℕ) (size : ℕ) (be : Bool)
    → IsValid h
    → sizeof_header ≤ size
    → from_bytes raw (some (encode h be ++ post)) size be ≡ ok (h, 0 + Prelude.length (encode h be))
from_bytes-append h raw post size be v le =
    from_bytes_lem raw (encode h be ++ post) size be le ∙ (get_fields-Reads h be v).apply [] post

-- With a size of at least 16, `from_bytes` over the wire format of a header whose fields fit their
-- C types gives that header back and returns 16.
pub from_bytes-encode_header :
    (h raw : MessageHeader) (size : ℕ) (be : Bool)
    → IsValid h
    → sizeof_header ≤ size
    → from_bytes raw (some (encode h be)) size be ≡ ok (h, 0 + Prelude.length (encode h be))
from_bytes-encode_header h raw size be v le =
    rw append-nil at (from_bytes-append h raw [] size be v le)

-- With a size of at least 16, `to_bytes` of a MessageHeader writes its wire format at the start of
-- the buffer and returns how many bytes that is, if they fit the buffer, and writes outside the
-- buffer if they do not.
pub to_bytes-encode_header :
    (h : MessageHeader) (buf : List ℕ) (size : ℕ) (be : Bool)
    → sizeof_header ≤ size
    → to_bytes h (some buf) size be ≡ (
        if leb (Prelude.length (encode h be)) (Prelude.length buf)
        then ok (some (splice 0 (encode h be) buf), Prelude.length (encode h be))
        else fault)
to_bytes-encode_header h buf size be le =
    to_bytes_lem h buf size be le ∙ keep-Writes buf (put_fields-Writes h be)
