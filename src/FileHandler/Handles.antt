-- ===== src/FileHandler/Handles.antt =====
-- The life of a handle in client/meta/file_handler.cpp.
use native.Mathlib.Decide.{ℕ_discrete}
use nmfs.Prelude.{
  Bool-cases, inl, inr, ◌⊎◌, ap, sym, ◌∙◌, ℕ, ◌≡◌, true, false, none, some, arith, if◌then◌else◌,
}
use nmfs.Prelude.Tests.{◌==◌}
use nmfs.Exec.{ok, err, runtime_error}
use nmfs.FileHandler.{
  FileHandler, FileHandlerList, add_file_handler, get_file_handler, delete_file_handler, assign,
}

-- The list after a handle that was free has been added.
abbrev pub added : ℕ → FileHandler → FileHandlerList → FileHandlerList
added key fh fh_list = (add_file_handler key fh fh_list).1

added_lem :
    (key : ℕ) (fh : FileHandler) (fh_list : FileHandlerList)
    → fh_list key ≡ none
    → add_file_handler key fh fh_list ≡ (ok tt, assign key (some fh) fh_list)
unfolding add_file_handler
added_lem key fh fh_list free = rw (free, add_file_handler)

add_again :
    (key : ℕ) (fh fh' : FileHandler) (fh_list : FileHandlerList)
    → fh_list key ≡ some fh
    → add_file_handler key fh' fh_list ≡ (err runtime_error, fh_list)
unfolding add_file_handler
add_again key fh fh' fh_list e = rw (e, add_file_handler)

delete_there :
    (key : ℕ) (fh : FileHandler) (fh_list : FileHandlerList)
    → fh_list key ≡ some fh
    → delete_file_handler key fh_list ≡ (true, assign key none fh_list)
unfolding delete_file_handler
delete_there key fh fh_list e = rw (e, delete_file_handler)

restored :
    (key k : ℕ) (fh : FileHandler) (fh_list : FileHandlerList)
    → fh_list key ≡ none
    → assign key none (assign key (some fh) fh_list) k ≡ fh_list k
restored key k fh fh_list free = elim (ℕ_discrete key k) [
  | yes e ↦ (let here : (key == k) ≡ true = ground arith in rw here (sym free ∙ ap fh_list e))
  | no n ↦ (let other : (key == k) ≡ false = ground arith in rw other)
]

get_assigned :
    (key k : ℕ) (fh : FileHandler) (fh_list : FileHandlerList)
    → ((key == k) ≡ true) ⊎ ((key == k) ≡ false)
    → get_file_handler k (assign key (some fh) fh_list)
      ≡ (if key == k then ok fh else get_file_handler k fh_list)
unfolding get_file_handler
get_assigned key k fh fh_list (inl e) = rw (e, get_file_handler)
get_assigned key k fh fh_list (inr e) = rw (e, get_file_handler)

assign_self :
    (key : ℕ) (fh : FileHandler) (fh_list : FileHandlerList)
    → assign key (some fh) fh_list key ≡ some fh
assign_self key fh fh_list = let same : (key == key) ≡ true = ground arith in rw same

-- A handle that is free can be added, and is then found by get_file_handler(), while all others are
-- found as before; it cannot be added again until delete_file_handler() has removed it, which leaves
-- the list as it was at first.
pub handle_life :
    (key k : ℕ) (fh fh' : FileHandler) (fh_list : FileHandlerList)
    → fh_list key ≡ none
    → ((add_file_handler key fh fh_list).0 ≡ ok tt)
      × (get_file_handler k (added key fh fh_list)
          ≡ (if key == k then ok fh else get_file_handler k fh_list))
      × (add_file_handler key fh' (added key fh fh_list)
          ≡ (err runtime_error, added key fh fh_list))
      × ((delete_file_handler key (added key fh fh_list)).0 ≡ true)
      × ((delete_file_handler key (added key fh fh_list)).1 k ≡ fh_list k)
unfolding add_file_handler get_file_handler delete_file_handler
handle_life key k fh fh' fh_list free =
    let e = added_lem key fh fh_list free in
    let there : added key fh fh_list key ≡ some fh =
      ap (λ p. p.1 key) e ∙ assign_self key fh fh_list in
    (
      ap (λ p. p.0) e,
      ap (λ p. get_file_handler k p.1) e ∙ get_assigned key k fh fh_list (Bool-cases (key == k)),
      add_again key fh fh' (added key fh fh_list) there,
      ap (λ p. p.0) (delete_there key fh (added key fh fh_list) there),
      ap (λ p. p.1 k) (delete_there key fh (added key fh fh_list) there)
          ∙ (ap (λ p. assign key none p.1 k) e ∙ restored key k fh fh_list free),
    )
