-- ===== src/Message/Header/Print.antt =====
-- include/protocol/message/message.h: operator<< of the header.
pub mod Table
use csae.Prelude.{ℕ, List, Run}
use csae.Message.Print.{utf8, Printer, ◌>>◌, start, finish, put_number}
use csae.Message.Header.{MessageHeader}

unfoldable pub put_rows : MessageHeader → Printer
unfolding ◌>>◌ put_number
put_rows h = do
  put_number 2 (utf8 "标识位") 1 h.id
  put_number 8 (utf8 "数据段长度") 4 h.data_len
  put_number 2 (utf8 "数据类别") 1 h.data_type
  put_number 2 (utf8 "版本号") 1 h.version
  put_number 16 (utf8 "时间戳") 8 h.timestamp
  put_number 2 (utf8 "控制内容") 1 h.ctrl

-- `os` is what the stream has got so far, and the result what it has then.
unfoldable pub print : List ℕ → MessageHeader → Run (List ℕ)
unfolding put_rows start
print os h = finish (put_rows h (start os 0))
