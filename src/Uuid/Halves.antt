-- ===== src/Uuid/Halves.antt =====
-- An inode number travels in the messages as two 64-bit numbers, client/meta/uuid_controller.cpp.
use nmfs.Prelude.{
  ℕ, ◌^◌, ◌<◌, Bytes, ◌≡◌, [], ◌∷◌, zero, suc, arith, length, take, drop, take-append, drop-append,
  take_all, take-append-drop, length-take, length-drop,
}
use nmfs.Codec.{le_bytes, AreBytes, length-le_bytes, le_value-le_bytes, le_bytes-le_value_wide}
use nmfs.Uuid.{Uuid, get_prefix_from_uuid, get_postfix_from_uuid, splice_prefix_and_postfix}

pub record IsUuid (id : Uuid) : Type 0 where
  pub sixteen : length id ≡ 16
  pub bytes : AreBytes id

take-AreBytes : (n : ℕ) (bs : Bytes) → AreBytes bs → AreBytes (take n bs)
take-AreBytes zero bs h = tt
take-AreBytes (suc n) [] h = tt
take-AreBytes (suc n) (b ∷ bs) h = (h.0, take-AreBytes n bs h.1)

drop-AreBytes : (n : ℕ) (bs : Bytes) → AreBytes bs → AreBytes (drop n bs)
drop-AreBytes zero bs h = h
drop-AreBytes (suc n) [] h = tt
drop-AreBytes (suc n) (b ∷ bs) h = drop-AreBytes n bs h.1

-- The halves of an inode number put together again are that number.
pub splice-halves :
    (id : Uuid)
    → IsUuid id
    → splice_prefix_and_postfix (get_prefix_from_uuid id) (get_postfix_from_uuid id) ≡ id
unfolding get_prefix_from_uuid get_postfix_from_uuid splice_prefix_and_postfix
splice-halves id h =
    rw
      (
        le_bytes-le_value_wide 8 (take 8 id) (omega (arith, h.sixteen, length-take 8 id))
            (take-AreBytes 8 id h.bytes),
        take_all 8 (drop 8 id) (omega (arith, h.sixteen, length-drop 8 id)),
        le_bytes-le_value_wide 8 (drop 8 id) (omega (arith, h.sixteen, length-drop 8 id))
            (drop-AreBytes 8 id h.bytes),
      )
      (take-append-drop 8 id)

-- Two numbers of 64 bits are the halves of the number that is put together from them.
halves-splice :
    (prefix postfix : ℕ)
    → prefix < 256 ^ 8
    → postfix < 256 ^ 8
    → (get_prefix_from_uuid (splice_prefix_and_postfix prefix postfix) ≡ prefix)
      × (get_postfix_from_uuid (splice_prefix_and_postfix prefix postfix) ≡ postfix)
unfolding get_prefix_from_uuid get_postfix_from_uuid splice_prefix_and_postfix
halves-splice prefix postfix h k = (
  rw (take-append 8 _ (le_bytes 8 postfix) (length-le_bytes 8 prefix))
      (le_value-le_bytes 8 prefix h),
  rw
      (
        drop-append 8 _ (le_bytes 8 postfix) (length-le_bytes 8 prefix),
        take_all 8 _ (length-le_bytes 8 postfix),
      )
      (le_value-le_bytes 8 postfix k),
)
