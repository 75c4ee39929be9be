-- ===== src/Format/Logs.antt =====
-- The log file of src/format.c. `can_create` of a disk says which paths `fopen` opens for writing.
use c_at.Base.{
  ◌∙◌, ap, str_eq_other, refl, str_eq_iff, false, str_eq, true, codes, some, none, [], ◌≡◌, ◌≢◌,
  if◌then◌else◌, Bytes,
}
use c_at.Files.Defs.{Disk, store}
use c_at.Format.Messages.{assert_w_error}

-- The file is open and the file system has changed, or a message is printed and the program exits
-- with -1.
pub data Opened : Type 0 where
  opened : Disk → Opened
  exited_with : Bytes → Opened

-- `fopen(fpath, "a+")` keeps the contents of a file, and creates one that does not exist. The
-- `perror` behind the assertion is never reached.
unfoldable pub open_file_for_logging : Bytes → Bytes → Disk → Opened
unfolding assert_w_error store
open_file_for_logging file fpath disk =
    elim (assert_w_error file (disk.can_create fpath) (codes "Failed to open file for logging")
      (codes "open_file_for_logging")) [
        | none ↦ opened (elim (disk.contents fpath) [ none ↦ store disk fpath [] | some b ↦ disk ])
        | some message ↦ exited_with message
      ]

-- `fopen(fpath, "w+")` empties the file.
unfoldable pub clear_file : Bytes → Disk → Disk
unfolding store
clear_file fpath disk = if disk.can_create fpath then store disk fpath [] else disk

open_file_for_logging-store :
    (file fpath b : Bytes) (disk : Disk)
    → disk.can_create fpath ≡ true
    → open_file_for_logging file fpath (store disk fpath b) ≡ opened (store disk fpath b)
unfolding open_file_for_logging store assert_w_error
open_file_for_logging-store file fpath b disk can =
    let same : str_eq fpath fpath ≡ true = (str_eq_iff fpath fpath).1 refl in
    rw (open_file_for_logging, can, same) refl

-- A log file that opens after it was cleared is empty, and any other file is as it was.
pub open_file_for_logging-clear_file :
    (file fpath path : Bytes) (disk : Disk)
    → disk.can_create fpath ≡ true
    → path ≢ fpath
    → (disk' : Disk) × (open_file_for_logging file fpath (clear_file fpath disk) ≡ opened disk')
      × (disk'.contents fpath ≡ some [])
      × (disk'.contents path ≡ disk.contents path)
unfolding clear_file store
open_file_for_logging-clear_file file fpath path disk can other =
    let emptied : clear_file fpath disk ≡ store disk fpath [] = rw can refl in
    let same : str_eq fpath fpath ≡ true = (str_eq_iff fpath fpath).1 refl in
    let differs : str_eq path fpath ≡ false = str_eq_other path fpath other in
    (
      store disk fpath [],
      ap (open_file_for_logging file fpath) emptied
          ∙ open_file_for_logging-store file fpath [] disk can,
      rw same refl,
      rw differs refl,
    )
