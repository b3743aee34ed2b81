-- ===== src/Session.antt =====
-- manager/session/session_impl.cpp: the numbers of the clients.
pub mod Unique
mod Examples
use nmfs.Prelude.{
  ℕ, ◌+◌, ◌-◌, ◌^◌, Bytes, Bool, true, false, Option, none, some, [], ◌∷◌, ltb, if◌then◌else◌,
}
use nmfs.Exec.{Exec, Result, ok, err, pure, overrun, raise, ◌>>=◌}
use nmfs.Codec.{le_bytes, get_le}
use nmfs.Rados.Store.{IoCtx}
use nmfs.Rados.Key as Key
use nmfs.Rados.{read, write, stat}

-- CLIENT_BITS
abbrev pub client_bits : ℕ
client_bits = 24

-- "next_id"
abbrev pub next_id_key : Bytes
next_id_key = b'n' ∷ b'e' ∷ b'x' ∷ b't' ∷ b'_' ∷ b'i' ∷ b'd' ∷ []

-- id->set_id(-1), an unsigned number of 64 bits
abbrev pub no_id : ℕ
no_id = 2 ^ 64 - 1

module _ (io : IoCtx) where
  open io use {State}

  -- What mount() returns once write() has ended: the number is counted up before the write.
  abbrev answer : ℕ → Result ℕ → Result ℕ
  answer next_id (ok _) = ok next_id
  answer next_id (err e) = err e

  -- mount(): the number for the client or the exception, and `next_id` after the call
  unfoldable pub mount : ℕ → State → (Result ℕ × ℕ) × State
  mount next_id s =
      if ltb next_id (2 ^ client_bits)
      then (let (r, s') = write io Key.client next_id_key (le_bytes 8 (next_id + 1)) 0 s in
          ((answer next_id r, next_id + 1), s'))
      else ((ok no_id, next_id), s)

  -- The number in what was read into `next_id`, whose bytes have no value before.
  decode : Option (ℕ × Bytes) → Exec State ℕ
  decode none = raise overrun
  decode (some (next_id, _)) = pure next_id

  load_id : Option ℕ → Exec State ℕ
  unfolding decode
  load_id none = pure 1
  load_id (some size) = do bs ← read io Key.client next_id_key size 0; decode (get_le 8 bs)

  -- session_impl(meta_pool): the value of `next_id`. `fuel` bounds the objects that stat() counts.
  unfoldable pub new_session : ℕ → Exec State ℕ
  unfolding load_id
  new_session fuel = do size ← stat io fuel Key.client next_id_key; load_id size
