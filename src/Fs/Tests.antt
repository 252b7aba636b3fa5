-- ===== src/Fs/Tests.antt =====
-- Runs of the file system field, and its theorem at one of them.
use xtemplate.Prelude.{
  ◌≡◌, refl, true, false, ◌||◌, none, some, List, [], ◌∷◌, codes, text_eq, if◌then◌else◌,
}
use xtemplate.Prelude.Errors.{ok, external}
use xtemplate.Fs.{Disk, World, open_, exists, Call, call_open, call_exists, call_read, run, cleanup}
use xtemplate.Fs.Handles.{among, cleanup_leaves}

-- A disk with one file.
abbrev one_file : Disk
one_file = record {
  open_error = λ n p. if text_eq p (codes "sub/a") then none else some (external 2);
  stat_dir = λ f. ok false;
  content = λ f. ok (codes "x");
  read_dir = λ p. ok [];
}

abbrev fresh : World
fresh = record { next = 0; live = λ h. false; opened = [] }

-- The file exists, but not for `Exists` of the directory that it is in.
exists_run :
    ((exists one_file (codes ".") (codes "sub/a") fresh).1 ≡ true)
    × ((exists one_file (codes "sub") (codes "a") fresh).1 ≡ false)
unfolding exists
exists_run = (refl, refl)

-- `Open` returns the second of the two files that it opens.
open_run : (open_ one_file (codes "sub") (codes "a") fresh).1 ≡ ok 1
unfolding open_
open_run = refl

abbrev calls : List (Call one_file)
calls =
    call_exists (codes ".") (codes "sub/a")
    ∷ call_open (codes "sub") (codes "a")
    ∷ call_read (codes ".") (codes "b")
    ∷ []

given_run : (run one_file calls fresh).1 ≡ 3 ∷ []
unfolding run
given_run = refl

cleanup_leaves_example :
    (cleanup none (run one_file calls fresh).0).0.live 3
    ≡ (among 3 (run one_file calls fresh).1 || false)
cleanup_leaves_example = cleanup_leaves one_file calls fresh none 3 refl (λ g le. refl)
