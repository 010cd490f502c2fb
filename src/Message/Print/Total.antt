-- ===== src/Message/Print/Total.antt =====
-- Prints that cannot leave their arrays, whatever numbers they print.
use csae.Prelude.{
  ℕ, ◌+◌, ◌≤◌, ◌<◌, ◌≡◌, refl, ◌∙◌, List, ◌++◌, arith, length, length-replicate, lt→ltb, ok,
}
use csae.Message.Print.{
  utf8, hex, decimal, line, sprintf, Printing, Printer, ◌>>◌, start, finish, put_line, put_number,
}
use csae.Message.Print.Digits.{length-hex, length-decimal}
use csae.Message.Print.Laws.{Prints}
use csae.Message.Print.Lines.{length-line, put_vehicle_id-Prints}
use csae.Message.Header
use csae.Message.Header.{MessageHeader}
use csae.Message.Header.Print as HeaderPrint
use csae.Message.InhRes.{Cloud2VehInhRes}
use csae.Message.InhRes.Print as InhResPrint

record Goes (p : Printer) : Type 0 where
  apply :
      (s : Printing)
      → length s.str ≡ 256
      → (after : Printing) × (p s ≡ ok after) × (length after.str ≡ 256)

seq-Goes : {p q : Printer} → Goes p → Goes q → Goes (p >> q)
unfolding ◌>>◌
seq-Goes hp hq = record {
  apply = λ s room.
      let (a, e, room') = hp.apply s room in
      let (b, e', room'') = hq.apply a room' in (b, rw e e', room'');
}

Prints-Goes : {p : Printer} {bs : List ℕ} → Prints p bs → Goes p
Prints-Goes h = record {
  apply = λ s room. let x = h.apply s room in (x.after, x.runs, x.str_lem ∙ room);
}

put_number-Goes :
    (w size v : ℕ) (label : List ℕ) → w ≤ 16 → length label < 500 → Goes (put_number w label size v)
unfolding put_number put_line sprintf
put_number-Goes w size v label le few = record {
  apply = λ s room.
      let t = line s.offset (hex w v) label (decimal v) in
      let fits = lt→ltb (length t) 1024 (
        length-line s.offset (hex w v) label (decimal v)
          (omega (arith, length-hex w v le, length-decimal v))) in
      (record s { os = s.os ++ t; offset = s.offset + size }, rw fits refl, room);
}

start-Goes :
    {p : Printer} (os : List ℕ) (offset : ℕ)
    → Goes p
    → (os' : List ℕ) × (finish (p (start os offset)) ≡ ok os')
unfolding start
start-Goes os offset h =
    let (a, e, room) = h.apply (start os offset) (length-replicate {A = ℕ} 256 0) in (a.os, rw e)

-- The print of a header returns, whatever its fields hold.
pub print_header-Returns :
    (os : List ℕ) (h : MessageHeader) → (os' : List ℕ) × (HeaderPrint.print os h ≡ ok os')
unfolding HeaderPrint.print HeaderPrint.put_rows
print_header-Returns os h = start-Goes os 0 (
    seq-Goes (put_number-Goes 2 1 h.id (utf8 "标识位") (omega arith) (omega arith)) (
      seq-Goes (put_number-Goes 8 4 h.data_len (utf8 "数据段长度") (omega arith) (omega arith)) (
        seq-Goes (put_number-Goes 2 1 h.data_type (utf8 "数据类别") (omega arith) (omega arith)) (
          seq-Goes (put_number-Goes 2 1 h.version (utf8 "版本号") (omega arith) (omega arith)) (
            seq-Goes (put_number-Goes 16 8 h.timestamp (utf8 "时间戳") (omega arith) (omega arith))
              (put_number-Goes 2 1 h.ctrl (utf8 "控制内容") (omega arith) (omega arith)))))))

-- So does that of a CLOUD2VEH_INH_RES message.
pub print_inh_res-Returns :
    (os : List ℕ) (m : Cloud2VehInhRes)
    → length m.vehicle_id ≡ 8
    → (os' : List ℕ) × (InhResPrint.print os m ≡ ok os')
unfolding InhResPrint.print InhResPrint.put_rows
print_inh_res-Returns os m eight =
    let (os', e) = print_header-Returns os m.header in
    let (os'', e') = start-Goes os' (Header.length m.header) (
      seq-Goes (Prints-Goes (put_vehicle_id-Prints m.vehicle_id eight))
        (put_number-Goes 2 1 m.res (utf8 "执行标志") (omega arith) (omega arith))) in
    (os'', rw e e')
