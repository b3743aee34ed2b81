-- ===== src/DirectoryTable/PathTraversal/Examples.antt =====
-- The theorem on directory_table::path_traversal() at the path "/ab/c/", in a client that has
-- nothing in its tables and whose manager does not answer.
use nmfs.Prelude.{◌≡◌, true, none, [], ◌∷◌, arith}
use nmfs.Rados.Memory.{memory}
use nmfs.DirectoryTable.PathTraversal.{path_traversal}
use nmfs.DirectoryTable.PathTraversal.Names.{path_traversal-walk, walk_from_root}
use nmfs.RpcMessages.Calls.{silent_stub}
use nmfs.World.{Outside}

abbrev silent : Outside
silent = record {
  now = λ n. n;
  time = λ n. record { tv_sec = n; tv_nsec = 0 };
  fresh_ino = λ n. n ∷ [];
  fresh_handle = λ n. n;
  grant = λ n request. none;
  stub = λ n. silent_stub;
  to_string = λ ino. ino;
  self_remote = [];
  fuel = 3;
}

path_traversal-walk_example :
    path_traversal memory silent (b'/' ∷ b'a' ∷ b'b' ∷ b'/' ∷ b'c' ∷ b'/' ∷ [])
    ≡ walk_from_root memory silent ((b'a' ∷ b'b' ∷ []) ∷ (b'c' ∷ []) ∷ [])
path_traversal-walk_example =
    path_traversal-walk memory silent ((b'a' ∷ b'b' ∷ []) ∷ (b'c' ∷ []) ∷ []) true
      (omega arith, (omega arith, (omega arith, tt)), (omega arith, (omega arith, tt), tt))
