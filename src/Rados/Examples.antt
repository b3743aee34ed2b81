-- ===== src/Rados/Examples.antt =====
-- The theorems on lib/rados_io/rados_io.cpp at concrete inputs, and tests.
use nmfs.Prelude.{false, ◌==◌, ap, ◌∙◌, ℕ, ◌≡◌, refl, Bytes, [], ◌∷◌, arith}
use nmfs.Map.{erase, find-put_self, put, find, Map, find-empty}
use nmfs.Exec.{ok}
use nmfs.Rados.Key.{obj_key, inode, journal}
use nmfs.Rados.Key.Injective.{obj_key_injective}
use nmfs.Rados.Memory.{memory, memory_store}
use nmfs.Rados.Hole.{IsCapped}
use nmfs.Rados.Write.{IsWritten, write-IsWritten}
use nmfs.Rados.Remove.{HasObjects, IsRemoved, remove-IsRemoved}
use nmfs.Rados.Read.{read-write}
use nmfs.Rados.{remove, exist, write, read}

abbrev no_objects : Map Bytes
no_objects = []

no_objects-IsCapped : IsCapped memory_store inode (b'a' ∷ []) no_objects
no_objects-IsCapped n = rw (find-empty {V = Bytes}) (omega arith)

obj_key_test : obj_key journal (b'a' ∷ []) 12 ≡ b'j' ∷ b'$' ∷ b'a' ∷ b'#' ∷ b'1' ∷ b'2' ∷ []
unfolding obj_key
obj_key_test = refl

write-IsWritten_example :
    (s' : Map Bytes) × (write memory inode (b'a' ∷ []) (7 ∷ 8 ∷ []) 2 no_objects ≡ (ok 2, s'))
    × IsWritten memory_store inode (b'a' ∷ []) no_objects s' (7 ∷ 8 ∷ []) 2
write-IsWritten_example =
    write-IsWritten memory_store inode (b'a' ∷ []) (7 ∷ 8 ∷ []) 2 no_objects no_objects-IsCapped

read-write_example :
    (s' : Map Bytes) × (write memory inode (b'a' ∷ []) (7 ∷ 8 ∷ []) 2 no_objects ≡ (ok 2, s'))
    × (read memory inode (b'a' ∷ []) 2 2 s' ≡ (ok (7 ∷ 8 ∷ []), s'))
read-write_example =
    read-write memory_store inode (b'a' ∷ []) (7 ∷ 8 ∷ []) 2 no_objects no_objects-IsCapped

obj_key_injective_example :
    (◌≡◌ inode inode) × (◌≡◌ {A = Bytes} (b'a' ∷ []) (b'a' ∷ [])) × (◌≡◌ {A = ℕ} 3 3)
obj_key_injective_example = obj_key_injective inode inode (b'a' ∷ []) (b'a' ∷ []) 3 3 refl

-- A file of one object.
abbrev one_object : Map Bytes
one_object = put (obj_key inode (b'a' ∷ []) 0) (7 ∷ []) []

one_object-HasObjects : HasObjects memory_store inode (b'a' ∷ []) one_object 0 1
unfolding put find obj_key ◌==◌ erase
one_object-HasObjects = record {
  there = λ k low high. (
    7 ∷ [],
    ap (λ k. find (obj_key inode (b'a' ∷ []) k) one_object) (let e : k ≡ 0 = omega arith in e)
        ∙ find-put_self (obj_key inode (b'a' ∷ []) 0) (7 ∷ []) [],
  );
  at_end = refl;
}

remove-IsRemoved_example :
    (s' : Map Bytes) × (remove memory 2 inode (b'a' ∷ []) one_object ≡ (ok tt, s'))
    × IsRemoved memory_store inode (b'a' ∷ []) one_object s' 0 1
    × (exist memory inode (b'a' ∷ []) s' ≡ (ok false, s'))
remove-IsRemoved_example =
    remove-IsRemoved memory_store inode (b'a' ∷ []) 1 2 one_object (omega arith)
      one_object-HasObjects
