-- ===== src/Versioning/Order.antt =====
-- The order of versions is total.
use ch_diag.Prelude.{arith, false, true, ◌≡◌}
use ch_diag.Versioning.{Version, version_le}

pub version_le_refl : (v : Version) → version_le v v ≡ true
unfolding version_le
version_le_refl v = ground arith

pub version_le_trans :
    (u v w : Version) → version_le u v ≡ true → version_le v w ≡ true → version_le u w ≡ true
unfolding version_le
version_le_trans u v w h k = ground arith

pub version_le_total : (v w : Version) → version_le v w ≡ false → version_le w v ≡ true
unfolding version_le
version_le_total v w h = ground arith

pub version_le_antisymm : (v w : Version) → version_le v w ≡ true → version_le w v ≡ true → v ≡ w
unfolding version_le
version_le_antisymm v w h k = ground arith
