-- ===== src/Config/Tests.antt =====
-- The expansion on texts like those of the source's tests.
use direlera_rs.Prelude.{◌≡◌, refl, List, Bytes, All}
use direlera_rs.Config.{expand, expand_config_vars_with}
use direlera_rs.Config.Expand.{Piece, print, values, IsPiece, IsTail}
use direlera_rs.Config.Template.{expand_config_vars_lem}
use direlera_rs.Server.Status.{codes}

abbrev value : Bytes → Bytes
value name = codes "${18081}"

-- A value is not expanded again, and what is not closed stays.
once : expand_config_vars_with value (codes "a=${P} ${B") ≡ codes "a=${18081} ${B"
unfolding expand_config_vars_with expand
once = refl

expand_config_vars_lem_example :
    (ps : List Piece) × (tail : Bytes) × (codes "a=${P} ${B" ≡ print ps tail)
    × All IsPiece ps
    × IsTail tail
    × (expand_config_vars_with value (codes "a=${P} ${B") ≡ values value ps tail)
expand_config_vars_lem_example = expand_config_vars_lem value (codes "a=${P} ${B")
