-- ===== src/Message/Header/Print/Table.antt =====
-- The header's print against its wire format.
use csae.Prelude.{ℕ, true, List, arith}
use csae.Message.Print.{utf8}
use csae.Message.Print.Laws.{Prints, seq-Prints, start-Prints, IsTable}
use csae.Message.Print.Lines.{u8-Prints, u32-Prints, u64-Prints}
use csae.Message.Header.{MessageHeader}
use csae.Message.Header.Codec.{encode, IsValid}
use csae.Message.Header.Print.{put_rows, print}

put_rows-Prints : (h : MessageHeader) → IsValid h → Prints (put_rows h) (encode h true)
unfolding put_rows encode
put_rows-Prints h v =
    seq-Prints (u8-Prints 2 h.id (utf8 "标识位") (omega arith) (omega arith) v.id_range) (
      seq-Prints
        (u32-Prints 8 h.data_len (utf8 "数据段长度") (omega arith) (omega arith) v.data_len_range)
        (seq-Prints
          (u8-Prints 2 h.data_type (utf8 "数据类别") (omega arith) (omega arith) v.data_type_range)
          (seq-Prints
            (u8-Prints 2 h.version (utf8 "版本号") (omega arith) (omega arith) v.version_range)
            (seq-Prints
              (u64-Prints 16 h.timestamp (utf8 "时间戳") (omega arith) (omega arith) v.timestamp_range)
              (u8-Prints 2 h.ctrl (utf8 "控制内容") (omega arith) (omega arith) v.ctrl_range)))))

-- Whatever the stream holds, the print of a header whose fields fit their C types puts a table of
-- its big-endian wire format behind it.
pub print-encode_header :
    (os : List ℕ) (h : MessageHeader) → IsValid h → IsTable (print os h) os (encode h true)
unfolding print
print-encode_header os h v = start-Prints os 0 (put_rows-Prints h v)
