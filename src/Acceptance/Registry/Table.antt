-- ===== src/Acceptance/Registry/Table.antt =====
-- What holds of the table of checks.
use blender_design.Common.{refl, NoRepeats, NoRepeats-of_length, distinct}
use blender_design.Acceptance.Registry.{ids, checks}

-- No two checks share an id.
pub ids-NoRepeats : NoRepeats (ids checks)
unfolding checks
ids-NoRepeats = NoRepeats-of_length (ids checks) (unfold distinct in refl)
