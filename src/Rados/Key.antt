-- ===== src/Rados/Key.antt =====
-- The names of the RADOS objects of a file, lib/rados_io/rados_io.cpp.
pub mod Injective
use nmfs.Prelude.{ℕ, zero, suc, ◌+◌, ◌/◌, ◌%◌, Bytes, [], ◌∷◌, ◌++◌, ltb, if◌then◌else◌}

-- enum class obj_category; `file_data` is DATA
pub data Category : Type 0 where
  inode dentry file_data client journal : Category

get_prefix : Category → Bytes
get_prefix inode = b'i' ∷ b'$' ∷ []
get_prefix dentry = b'e' ∷ b'$' ∷ []
get_prefix file_data = b'd' ∷ b'$' ∷ []
get_prefix client = b'c' ∷ b'$' ∷ []
get_prefix journal = b'j' ∷ b'$' ∷ []

-- std::to_string, digit by digit from the end; a number has at most as many digits as its value
-- and one
to_decimal_loop : ℕ → ℕ → Bytes
to_decimal_loop zero n = []
to_decimal_loop (suc fuel) n =
    let rest = to_decimal_loop fuel (n / 10) in
    if ltb n 10 then (b'0' + n) ∷ [] else rest ++ (b'0' + n % 10) ∷ []

to_decimal : ℕ → Bytes
unfolding to_decimal_loop
to_decimal n = to_decimal_loop (n + 1) n

get_postfix : ℕ → Bytes
unfolding to_decimal
get_postfix num = b'#' ∷ to_decimal num

unfoldable pub obj_key : Category → Bytes → ℕ → Bytes
unfolding get_prefix get_postfix
obj_key category key num = get_prefix category ++ (key ++ get_postfix num)
