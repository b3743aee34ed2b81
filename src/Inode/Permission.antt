-- ===== src/Inode/Permission.antt =====
-- inode::permission_check of client/meta/inode.cpp against the bits of the mode.
use native.Mathlib.Decide.{ℕ_discrete}
use nmfs.Prelude.{ℕ, ◌*◌, ◌/◌, ◌%◌, ◌≡◌, ◌≢◌, ◌↔◌, true, Bool, ◌&&◌, arith, if◌then◌else◌}
use nmfs.Prelude.Tests.{◌==◌}
use nmfs.Inode.{Inode, Core, target_mode, permission_check, r_ok, w_ok, x_ok}

-- The permissions that `mask` asks for are set in `mode`, read from the bit of weight `w` on.
abbrev pub Permits : ℕ → ℕ → ℕ → Type 0
Permits mask mode w =
    (mask / 4 % 2 ≡ 1 → mode / (4 * w) % 2 ≡ 1)
    × (mask / 2 % 2 ≡ 1 → mode / (2 * w) % 2 ≡ 1)
    × (mask % 2 ≡ 1 → mode / w % 2 ≡ 1)

-- The check on three bits.
checked : ℕ → ℕ → Bool
checked mask target =
    let read = if r_ok mask then r_ok target else true in
    let write = if w_ok mask then read && w_ok target else read in
    if x_ok mask then write && x_ok target else write

checked_iff :
    (mask mode target w : ℕ)
    → target / 4 % 2 ≡ mode / (4 * w) % 2
    → target / 2 % 2 ≡ mode / (2 * w) % 2
    → target % 2 ≡ mode / w % 2
    → (checked mask target ≡ true) ↔ Permits mask mode w
unfolding checked
checked_iff mask mode target w r wr x = (
  λ h. (λ e. ground arith, λ e. ground arith, λ e. ground arith),
  λ h. ground (arith, h.0, h.1, h.2),
)

target_owner : (uid gid : ℕ) (c : Core) → uid ≡ c.i_uid → target_mode uid gid c ≡ c.i_mode / 64 % 8
unfolding target_mode
target_owner uid gid c e = ground arith

target_group :
    (uid gid : ℕ) (c : Core)
    → uid ≢ c.i_uid
    → gid ≡ c.i_gid
    → target_mode uid gid c ≡ c.i_mode / 8 % 8
unfolding target_mode
target_group uid gid c n e = ground arith

target_other :
    (uid gid : ℕ) (c : Core) → uid ≢ c.i_uid → gid ≢ c.i_gid → target_mode uid gid c ≡ c.i_mode % 8
unfolding target_mode
target_other uid gid c n g = ground arith

-- Where the bits of a client stand in a mode: the owner's, the group's or the others'.
abbrev pub place : ℕ → ℕ → Core → ℕ
place uid gid c = if uid == c.i_uid then 64 else if gid == c.i_gid then 8 else 1

-- permission_check() passes exactly when every permission in the mask is set in the mode: in the
-- owner's bits for the owner, in the group's bits for any other client of the group, and in the
-- bits for others in all other cases.
pub permission_check_iff :
    (uid gid mask : ℕ) (i : Inode)
    → (permission_check uid gid mask i ≡ true) ↔ Permits mask i.core.i_mode (place uid gid i.core)
unfolding permission_check checked
permission_check_iff uid gid mask i = elim (ℕ_discrete uid i.core.i_uid) [
  | yes e ↦
      let here : place uid gid i.core ≡ 64 = ground arith in
      rw (here, target_owner uid gid i.core e)
        (checked_iff mask m (m / 64 % 8) 64 (omega arith) (omega arith) (omega arith))
  | no n ↦ elim (ℕ_discrete gid i.core.i_gid) [
    | yes e ↦
        let here : place uid gid i.core ≡ 8 = ground arith in
        rw (here, target_group uid gid i.core n e)
          (checked_iff mask m (m / 8 % 8) 8 (omega arith) (omega arith) (omega arith))
    | no g ↦
        let here : place uid gid i.core ≡ 1 = ground arith in
        rw (here, target_other uid gid i.core n g)
          (checked_iff mask m (m % 8) 1 (omega arith) (omega arith) (omega arith))
  ]
]
  where
    m : ℕ
    m = i.core.i_mode
