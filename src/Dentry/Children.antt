-- ===== src/Dentry/Children.antt =====
-- The list of a directory's children of client/meta/dentry.cpp under its operations.
use nmfs.Prelude.{Bytes, ◌==◌, ◌≡◌, arith, if◌then◌else◌}
use nmfs.Map.{find-put, find-erase}
use nmfs.Uuid.{Uuid, nil_uuid}
use nmfs.Dentry.{Dentry, add_child, delete_child, get_child_ino}

-- After add_child() a name has the number that was given, and after delete_child() it has the nil
-- number, whether it was there or not; every other name has the number that it had.
get_child_ino-add_child-delete_child :
    (name n : Bytes) (ino : Uuid) (d : Dentry)
    → (get_child_ino n (add_child name ino d) ≡ (if name == n then ino else get_child_ino n d))
      × (get_child_ino n (delete_child name d)
          ≡ (if name == n then nil_uuid else get_child_ino n d))
unfolding get_child_ino add_child delete_child
get_child_ino-add_child-delete_child name n ino d = (
  ground (arith, find-put name n ino d.child_list),
  ground (arith, find-erase {V = Uuid} name n d.child_list),
)
