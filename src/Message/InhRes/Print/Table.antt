-- ===== src/Message/InhRes/Print/Table.antt =====
-- The print of CLOUD2VEH_INH_RES against its wire format.
use csae.Prelude.{ℕ, sym, true, List, arith}
use csae.Message.Print.{utf8}
use csae.Message.Print.Laws.{Prints, seq-Prints, behind-Prints, IsTable}
use csae.Message.Print.Lines.{u8-Prints, put_vehicle_id-Prints}
use csae.Message.Header.Codec
use csae.Message.Header.Print.Table.{print-encode_header}
use csae.Message.InhRes.{Cloud2VehInhRes}
use csae.Message.InhRes.Codec.{body, encode, IsValid}
use csae.Message.InhRes.Print.{put_rows, print}

put_rows-Prints : (m : Cloud2VehInhRes) → IsValid m → Prints (put_rows m) (body m)
unfolding put_rows body
put_rows-Prints m v =
    seq-Prints (put_vehicle_id-Prints m.vehicle_id v.vehicle_id_size)
      (u8-Prints 2 m.res (utf8 "执行标志") (omega arith) (omega arith) v.res_range)

-- Whatever the stream holds, the print of a valid Cloud2VehInhRes puts a table of its wire format
-- behind it.
pub print-encode_inh_res :
    (os : List ℕ) (m : Cloud2VehInhRes) → IsValid m → IsTable (print os m) os (encode m)
unfolding print encode
print-encode_inh_res os m v =
    behind-Prints os (print-encode_header os m.header v.header_valid)
      (sym (Codec.length-encode m.header true)) (put_rows-Prints m v)
