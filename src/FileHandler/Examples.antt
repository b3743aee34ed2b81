-- ===== src/FileHandler/Examples.antt =====
-- The theorem on client/meta/file_handler.cpp at an empty list.
use nmfs.Prelude.{◌≡◌, refl, true, none, [], if◌then◌else◌}
use nmfs.Prelude.Tests.{◌==◌}
use nmfs.Exec.{ok, err, runtime_error}
use nmfs.FileHandler.{
  FileHandler, FileHandlerList, new_file_handler, add_file_handler, get_file_handler,
  delete_file_handler,
}
use nmfs.FileHandler.Handles.{added, handle_life}

abbrev no_files : FileHandlerList
no_files k = none

abbrev fh : FileHandler
fh = new_file_handler []

handle_life_example :
    ((add_file_handler 5 fh no_files).0 ≡ ok tt)
    × (get_file_handler 6 (added 5 fh no_files)
        ≡ (if 5 == 6 then ok fh else get_file_handler 6 no_files))
    × (add_file_handler 5 fh (added 5 fh no_files) ≡ (err runtime_error, added 5 fh no_files))
    × ((delete_file_handler 5 (added 5 fh no_files)).0 ≡ true)
    × ((delete_file_handler 5 (added 5 fh no_files)).1 6 ≡ no_files 6)
handle_life_example = handle_life 5 6 fh fh no_files refl
