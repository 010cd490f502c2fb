-- ===== src/Message/InhRes/Print.antt =====
-- include/protocol/message/veh2cloud_inh.h: operator<< of CLOUD2VEH_INH_RES.
pub mod Table
use csae.Prelude.{ℕ, List, Run, bind}
use csae.Message.Print.{utf8, Printer, ◌>>◌, start, finish, put_number, put_vehicle_id}
use csae.Message.Header
use csae.Message.Header.Print
use csae.Message.InhRes.{Cloud2VehInhRes}

unfoldable pub put_rows : Cloud2VehInhRes → Printer
unfolding ◌>>◌ put_number put_vehicle_id
put_rows m = do put_vehicle_id m.vehicle_id; put_number 2 (utf8 "执行标志") 1 m.res

unfoldable pub print : List ℕ → Cloud2VehInhRes → Run (List ℕ)
unfolding put_rows start Print.print
print os m =
    bind (Print.print os m.header) (λ os'. finish (put_rows m (start os' (Header.length m.header))))
