-- ===== src/FileHandler.antt =====
-- client/meta/file_handler.cpp: the open files of a client by their handle. A pointer is an
-- address; `loc` and the pointers are `none` before they are set.
pub mod Handles
mod Examples
use nmfs.Prelude.{ℕ, Bool, true, false, Option, none, some, if◌then◌else◌}
use nmfs.Prelude.Tests.{◌==◌}
use nmfs.Exec.{Result, ok, err, runtime_error}
use nmfs.Uuid.{Uuid}
use nmfs.Inode.{MetaLocation}

pub record FileHandler : Type 0 where
  pub ino : Uuid
  pub loc : Option MetaLocation
  pub fhno : ℕ
  pub i : Option ℕ
  pub remote_i : Option ℕ

-- file_handler(ino)
unfoldable pub new_file_handler : Uuid → FileHandler
new_file_handler ino = record { ino = ino; loc = none; fhno = 0; i = none; remote_i = none }

unfoldable pub set_fhno : ℕ → FileHandler → FileHandler
set_fhno this_fhno fh = record fh { fhno = this_fhno }

unfoldable pub set_loc : MetaLocation → FileHandler → FileHandler
set_loc this_loc fh = record fh { loc = some this_loc }

unfoldable pub set_i : ℕ → FileHandler → FileHandler
set_i open_i fh = record fh { i = some open_i }

unfoldable pub set_remote_i : ℕ → FileHandler → FileHandler
set_remote_i open_remote_i fh = record fh { remote_i = some open_remote_i }

-- The inode that is open, by the location.
open_at : Option MetaLocation → FileHandler → Result (Option ℕ)
open_at (some MetaLocation.local) fh = ok fh.i
open_at (some MetaLocation.remote) fh = ok fh.remote_i
open_at _ fh = err runtime_error

unfoldable pub get_open_inode_info : FileHandler → Result (Option ℕ)
unfolding open_at
get_open_inode_info fh = open_at fh.loc fh

-- fh_list
abbrev pub FileHandlerList : Type 0
FileHandlerList = ℕ → Option FileHandler

abbrev pub assign : ℕ → Option FileHandler → FileHandlerList → FileHandlerList
assign key fh fh_list k = if key == k then fh else fh_list k

-- A handle that is in use stays as it is, and the call throws.
unfoldable pub add_file_handler :
    ℕ → FileHandler → FileHandlerList → Result (Unit {0}) × FileHandlerList
add_file_handler key fh fh_list = elim (fh_list key) [
  | none ↦ (ok tt, assign key (some fh) fh_list)
  | some _ ↦ (err runtime_error, fh_list)
]

unfoldable pub get_file_handler : ℕ → FileHandlerList → Result FileHandler
get_file_handler key fh_list = elim (fh_list key) [ none ↦ err runtime_error | some fh ↦ ok fh ]

-- `true` for 0, and `false` for -EIO
unfoldable pub delete_file_handler : ℕ → FileHandlerList → Bool × FileHandlerList
delete_file_handler key fh_list = elim (fh_list key) [
  | none ↦ (false, fh_list)
  | some _ ↦ (true, assign key none fh_list)
]
