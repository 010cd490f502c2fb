-- ===== src/Packer/Front.antt =====
-- The three bytes that `unpack` looks at, in memory that starts with a header.
use csae.Prelude.{
  ℕ, ◌+◌, ◌≤◌, ◌<◌, ◌≡◌, refl, ◌∙◌, true, false, Option, some, List, [], ◌++◌, append_assoc, arith,
  length, length-append, ◌==◌, not, ok,
}
use csae.Memory.Word.{word_bytes, length-word_bytes}
use csae.Memory.Read.{get_byte}
use csae.Memory.Read.Laws.{get_byte-Reads}
use csae.Message.Header.{MessageHeader}
use csae.Message.Header.Codec.{encode, IsValid}
use csae.Packer.{Handler, Storage, unpack, unpack_type}

-- A byte that stands behind `pre`.
byte_behind :
    (pre post : List ℕ) (v offset : ℕ)
    → v < 256
    → length pre ≡ offset
    → get_byte (pre ++ (word_bytes false 1 v ++ post)) offset ≡ ok (v, offset + 1)
byte_behind pre post v offset h e =
    rw (← e) ((get_byte-Reads v h).apply pre post ∙ rw length-word_bytes)

module _ (h : MessageHeader) (post : List ℕ) where
  -- The id and the length.
  abbrev before_type : List ℕ
  before_type = word_bytes false 1 h.id ++ word_bytes true 4 h.data_len

  abbrev before_version : List ℕ
  before_version = before_type ++ word_bytes false 1 h.data_type

  abbrev behind_version : List ℕ
  behind_version = word_bytes true 8 h.timestamp ++ (word_bytes false 1 h.ctrl ++ post)

  at_id :
      encode h true ++ post
      ≡ []
        ++ (word_bytes false 1 h.id
            ++ (word_bytes true 4 h.data_len
                ++ (word_bytes false 1 h.data_type
                    ++ (word_bytes false 1 h.version ++ behind_version))))
  unfolding encode
  at_id = simp append_assoc

  at_type :
      encode h true ++ post
      ≡ before_type
        ++ (word_bytes false 1 h.data_type ++ (word_bytes false 1 h.version ++ behind_version))
  unfolding encode
  at_type = simp append_assoc

  at_version :
      encode h true ++ post ≡ before_version ++ (word_bytes false 1 h.version ++ behind_version)
  unfolding encode
  at_version = simp append_assoc

module _ (h : MessageHeader) (post : List ℕ) (v : IsValid h) where
  pub id_byte : get_byte (encode h true ++ post) 0 ≡ ok (h.id, 1)
  id_byte = rw (at_id h post) (byte_behind [] _ h.id 0 v.id_range refl)

  pub type_byte : get_byte (encode h true ++ post) 5 ≡ ok (h.data_type, 6)
  type_byte = rw (at_type h post) (
      byte_behind (before_type h post) _ h.data_type 5 v.data_type_range
        (simp (length-append, length-word_bytes)))

  pub version_byte : get_byte (encode h true ++ post) 6 ≡ ok (h.version, 7)
  version_byte = rw (at_version h post) (
      byte_behind (before_version h post) _ h.version 6 v.version_range
        (simp (length-append, length-word_bytes)))

  -- With the identifier in place `unpack` goes by the data type.
  pub unpack-front :
      {S : Type 0} (raw : Storage) (size : ℕ) (handler : Option (Handler S)) (s : S)
      → h.id ≡ 0xf2
      → 1 ≤ size
      → unpack raw (some (encode h true ++ post)) size handler s
        ≡ unpack_type raw (encode h true ++ post) size handler s h.data_type
  unfolding unpack
  unpack-front raw size handler s e le =
      let id_ok : not (h.id == 0xf2) ≡ false = rw e in
      let some_bytes : (size == 0) ≡ false = ground arith in
      rw (some_bytes, id_byte, id_ok, type_byte)
