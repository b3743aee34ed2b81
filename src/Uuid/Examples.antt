-- ===== src/Uuid/Examples.antt =====
-- A test of client/meta/uuid_controller.cpp.
use nmfs.Prelude.{◌≡◌, refl, [], ◌∷◌}
use nmfs.Uuid.{get_root_ino}

root_test : get_root_ino ≡ 0 ∷ 0 ∷ 0 ∷ 0 ∷ 0 ∷ 0 ∷ 0 ∷ 0 ∷ 0 ∷ 0 ∷ 0 ∷ 0 ∷ 0 ∷ 0 ∷ 0 ∷ 1 ∷ []
unfolding get_root_ino
root_test = refl
