-- ===== src/Packer/Print.antt =====
-- `operator<<` of the class that a message has.
pub mod Table
pub mod Calm
use csae.Prelude.{ℕ, List, Run}
use csae.Message.Header.Print as HeaderPrint
use csae.Message.Inh.Print as InhPrint
use csae.Message.InhRes.Print as InhResPrint
use csae.Message.State.Print as StatePrint
use csae.Message.State2.Print as State2Print
use csae.Packer.{AnyMessage, header, inh, inh_res, state, state2}

-- `os << message`.
unfoldable pub print_any : List ℕ → AnyMessage → Run (List ℕ)
unfolding HeaderPrint.print InhPrint.print InhResPrint.print StatePrint.print State2Print.print
print_any os (header m) = HeaderPrint.print os m
print_any os (inh m) = InhPrint.print os m
print_any os (inh_res m) = InhResPrint.print os m
print_any os (state m) = StatePrint.print os m
print_any os (state2 m) = State2Print.print os m
