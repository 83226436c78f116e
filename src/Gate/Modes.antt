-- ===== src/Gate/Modes.antt =====
-- instance/permissions.py: the order of the modes, and the ceiling.
use kinby.Common.{ℕ, Bool, ◌≡◌, arith, min, if◌then◌else◌, ltb}
use kinby.Contracts.{PermissionMode, read_only, ask, auto, full_access}

-- `_MODE_ORDER.index(mode)`
abbrev pub rank : PermissionMode → ℕ
rank read_only = 0
rank ask = 1
rank auto = 2
rank full_access = 3

pub exceeds_ceiling : PermissionMode → PermissionMode → Bool
exceeds_ceiling mode ceiling = ltb (rank ceiling) (rank mode)

unfoldable pub constrain_mode : PermissionMode → PermissionMode → PermissionMode
unfolding exceeds_ceiling
constrain_mode mode ceiling = if exceeds_ceiling mode ceiling then ceiling else mode

-- The mode that a ceiling leaves has the lower rank of the two.
pub rank-constrain_mode :
    (mode ceiling : PermissionMode)
    → rank (constrain_mode mode ceiling) ≡ min (rank mode) (rank ceiling)
unfolding constrain_mode
rank-constrain_mode mode ceiling = ground arith
