-- ===== src/Examples/Wire.antt =====
-- Messages, certificates and paths.
use zonedns.Prelude.{◌≡◌, some}
use zonedns.Text.{str_eq, str_beq, text}
use zonedns.Ednszone.{valid, get, set}
use zonedns.Ednszone.Laws.{declarations, get_sole, get-set}
use zonedns.Examples.{msg_lib, forged}

get_sole_example : get msg_lib 65001 forged ≡ some (text "zone-b")
unfolding msg_lib declarations valid zonedns.Ednszone.options_of zonedns.Ednszone.declared_by
    str_beq
get_sole_example = get_sole msg_lib 65001 forged

get-set_example :
    get msg_lib 65001 (set msg_lib 65001 (text "zone-a") forged) ≡ some (text "zone-a")
unfolding valid str_beq
get-set_example = get-set msg_lib 65001 (text "zone-a") forged
