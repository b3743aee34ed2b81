-- ===== src/Exec.antt =====
-- C++ functions that change a state and may throw. What was written before a throw stays written,
-- so the state comes back beside the exception too.
use nmfs.Prelude.{ℕ, Bytes, ◌≡◌, refl}

-- The exceptions of the program. `no_such_object` holds the bytes that the buffer has got, whose
-- number is its num_bytes. `fuel_exhausted` is no exception: a loop of the model did not end within
-- the rounds that it was given. `overrun` is none either: memory is read past the end of a buffer. `undefined` is none either: a null pointer
-- is followed, or a value is used that has never been set.
pub data Error : Type 0 where
  runtime_error logic_error no_entry not_leader permission_denied out_of_range : Error
  overrun undefined fuel_exhausted : Error
  no_such_object : Bytes → Error

pub data Result {ℓ} (A : Type ℓ) : Type ℓ where
  ok : A → Result A
  err : Error → Result A

abbrev pub Exec {ℓ} : Type ℓ → Type ℓ → Type ℓ
Exec S A = S → Result A × S

module _ {ℓ} {S A : Type ℓ} where
  abbrev pub pure : A → Exec S A
  pure a s = (ok a, s)

  abbrev pub raise : Error → Exec S A
  raise e s = (err e, s)

module _ {ℓ} {S A B : Type ℓ} where
  abbrev pub continue : Result A × S → (A → Exec S B) → Result B × S
  continue (ok a, s) f = f a s
  continue (err e, s) f = (err e, s)

  infixl 5 ◌>>=◌ ◌>>◌
  abbrev pub ◌>>=◌ : Exec S A → (A → Exec S B) → Exec S B
  ◌>>=◌ m f s = continue (m s) f

  abbrev pub ◌>>◌ : Exec S A → Exec S B → Exec S B
  m >> n = m >>= λ _. n

-- The numbers that the operations return: 0, and the negative ones by their names in errno.h and in
-- client/meta/inode.hpp.
pub data Code : Type 0 where
  success enoent enotdir enotempty eexist einval enosys eisdir eloop eio eacces : Code
  enotleader eneedrecov : Code

-- A result of type ssize_t: a number of bytes, or one of the negative numbers.
pub data Length : Type 0 where
  bytes : ℕ → Length
  failed : Code → Length

-- The code returns, and its value and the state that it leaves are related as `P` says.
pub record Gives {A S : Type 0} (x : Result A × S) (P : A → S → Type 0) : Type 0 where
  pub value : A
  pub state : S
  pub returned : x ≡ (ok value, state)
  pub holds : P value state

pub gives : {A S : Type 0} {P : A → S → Type 0} {a : A} {s : S} → P a s → Gives (ok a, s) P
gives {a = a} {s = s} h = record { value = a; state = s; returned = refl; holds = h }

-- The rule for a step and what follows it.
pub Gives-bind :
    {A B S : Type 0} {Q : A → S → Type 0} {R : B → S → Type 0} {x : Result A × S} {f : A → Exec S B}
    → Gives x Q
    → ((a : A) (s : S) → Q a s → Gives (f a s) R)
    → Gives (continue x f) R
Gives-bind g k = rw g.returned (k g.value g.state g.holds)

pub Gives-map :
    {A S : Type 0} {Q R : A → S → Type 0} {x : Result A × S}
    → Gives x Q
    → ((a : A) (s : S) → Q a s → R a s)
    → Gives x R
Gives-map g k = record {
  value = g.value;
  state = g.state;
  returned = g.returned;
  holds = k g.value g.state g.holds;
}
