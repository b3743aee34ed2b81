-- ===== src/Codec.antt =====
-- Buffers read and written by `memcpy` on a little-endian host: journal/transaction.cpp,
-- meta/dentry.cpp, meta/inode.cpp and meta/uuid_controller.cpp of client/ are built on these.
use native.Mathlib.Nat.{pow-suc}
use nmfs.Prelude.Tests.{◌==◌}
use nmfs.Prelude.{
  ◌≢◌, ℕ, zero, suc, ◌+◌, ◌*◌, ◌/◌, ◌%◌, ◌^◌, ◌<◌, Bytes, ◌≡◌, refl, ap, Option, none, some, [],
  ◌∷◌, ◌++◌, arith, length, take, drop, leb, ltb, if◌then◌else◌, length-append, take-append,
  drop-append,
}

infixl 5 ◌>>=◌
abbrev pub ◌>>=◌ {ℓ κ} : {A : Type ℓ} {B : Type κ} → Option A → (A → Option B) → Option B
none >>= f = none
some a >>= f = f a

-- memcpy(buffer, &x, w) for an unsigned x
unfoldable pub le_bytes : ℕ → ℕ → Bytes
le_bytes zero x = []
le_bytes (suc w) x = (x % 256) ∷ le_bytes w (x / 256)

-- The unsigned number that the bytes of a buffer hold.
unfoldable pub le_value : Bytes → ℕ
le_value [] = 0
le_value (b ∷ bs) = b + 256 * le_value bs

abbrev pub AreBytes : Bytes → Type 0
AreBytes [] = Unit {0}
AreBytes (b ∷ bs) = (b < 256) × AreBytes bs

-- memcpy(dst, pointer, n); pointer += n, with `none` for a read past the end of the buffer
unfoldable pub get_bytes : ℕ → Bytes → Option (Bytes × Bytes)
get_bytes n raw = if leb n (length raw) then some (take n raw, drop n raw) else none

-- memcpy(&x, pointer, w); pointer += w, for an unsigned x of w bytes
unfoldable pub get_le : ℕ → Bytes → Option (ℕ × Bytes)
get_le w raw = do (bs, rest) ← get_bytes w raw; some (le_value bs, rest)

-- memcpy(&x, pointer, 4); pointer += 4, for an int that is a length. A negative one is followed by a
-- read, an allocation or a std::string of that length as a size_t, which cannot be: `none`.
unfoldable pub get_length : Bytes → Option (ℕ × Bytes)
get_length raw = do (x, rest) ← get_le 4 raw; if ltb x (2 ^ 31) then some (x, rest) else none

pub length-le_bytes : (w x : ℕ) → length (le_bytes w x) ≡ w
unfolding le_bytes
length-le_bytes zero x = refl
length-le_bytes (suc w) x = ap suc (length-le_bytes w (x / 256))

pub le_value-le_bytes : (w x : ℕ) → x < 256 ^ w → le_value (le_bytes w x) ≡ x
unfolding le_bytes le_value
le_value-le_bytes zero x h = omega arith
le_value-le_bytes (suc w) x h =
    omega (arith, pow-suc 256 w, le_value-le_bytes w (x / 256) (omega (arith, pow-suc 256 w)))

pub le_bytes-le_value : (bs : Bytes) → AreBytes bs → le_bytes (length bs) (le_value bs) ≡ bs
unfolding le_bytes le_value
le_bytes-le_value [] h = refl
le_bytes-le_value (b ∷ bs) h =
    let low : (b + 256 * le_value bs) % 256 ≡ b = omega arith in
    let high : (b + 256 * le_value bs) / 256 ≡ le_value bs = omega arith in
    rw (low, high, le_bytes-le_value bs h.1)

pub le_bytes-le_value_wide :
    (w : ℕ) (bs : Bytes) → length bs ≡ w → AreBytes bs → le_bytes w (le_value bs) ≡ bs
le_bytes-le_value_wide w bs e h = rw (← e) (le_bytes-le_value bs h)

pub get_bytes-append :
    (n : ℕ) (xs rest : Bytes) → length xs ≡ n → get_bytes n (xs ++ rest) ≡ some (xs, rest)
unfolding get_bytes
get_bytes-append n xs rest h =
    rw (take-append n xs rest h, drop-append n xs rest h) (ground (arith, length-append xs rest))

pub get_le-append :
    (w x : ℕ) (rest : Bytes) → x < 256 ^ w → get_le w (le_bytes w x ++ rest) ≡ some (x, rest)
unfolding get_le
get_le-append w x rest h =
    rw (get_bytes-append w (le_bytes w x) rest (length-le_bytes w x), le_value-le_bytes w x h)

pub get_length-append :
    (x : ℕ) (rest : Bytes) → x < 2 ^ 31 → get_length (le_bytes 4 x ++ rest) ≡ some (x, rest)
unfolding get_length
get_length-append x rest h = rw (get_le-append 4 x rest (omega arith)) (ground arith)

-- std::string(p) for a char pointer: the characters in front of the first zero
unfoldable pub c_string : Bytes → Bytes
c_string [] = []
c_string (c ∷ cs) = if c == 0 then [] else c ∷ c_string cs

abbrev pub HasNoZero : Bytes → Type 0
HasNoZero [] = Unit {0}
HasNoZero (c ∷ cs) = (c ≢ 0) × HasNoZero cs

pub c_string_same : (cs : Bytes) → HasNoZero cs → c_string cs ≡ cs
unfolding c_string
c_string_same [] h = refl
c_string_same (c ∷ cs) h = ground (arith, c_string_same cs h.1)
