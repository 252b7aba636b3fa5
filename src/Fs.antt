-- ===== src/Fs.antt =====
-- dot_fs.go and dot_fs_config.go, `Cleanup`: the file system field, and the files that it opens.
pub mod Handles
mod Tests
use xtemplate.Prelude.{
  ℕ, ◌+◌, Bool, true, false, not, ◌&&◌, ◌||◌, Option, none, some, List, [], ◌∷◌, ◌++◌, Text, any,
  ◌==◌, if◌then◌else◌,
}
use xtemplate.Prelude.Errors.{Error, Result, ok, err, errorf, wrapf, text}
use xtemplate.Paths.{clean, join}

-- The `fs.FS`. What it answers may change from one call of `Open` to the next: `open_error` is given
-- the number of calls before. The contents and `Stat` are asked of an open file.
pub record Disk : Type 0 where
  pub open_error : ℕ → Text → Option Error
  pub stat_dir : ℕ → Result Bool
  pub content : ℕ → Result Text
  pub read_dir : Text → Result (List Text)

-- An open file is the number of the call of `Open` that returned it. `opened` is the set of dotFS.
pub record World : Type 0 where
  pub next : ℕ
  pub live : ℕ → Bool
  pub opened : List ℕ

pub fs_close : ℕ → World → World
fs_close f w = record w { live = λ g. not (f == g) && w.live g }

pub track : ℕ → World → World
track f w = record w { opened = f ∷ w.opened }

-- `path.Join(d.path, path.Clean(name))`; a `Dir` is its path.
pub within : Text → Text → Text
unfolding clean join
within d name = join d (clean name)

module _ (disk : Disk) where
  pub fs_open : Text → World → World × Result ℕ
  fs_open name w = elim (disk.open_error w.next name) [
    | some e ↦ (record w { next = w.next + 1 }, err e)
    | none ↦ (record w { next = w.next + 1; live = λ g. w.next == g || w.live g }, ok w.next)
  ]

  close_after : {A : Type 0} → (ℕ → Result A) → World × Result ℕ → World × Result A
  unfolding fs_close
  close_after use_file (w, err e) = (w, err e)
  close_after use_file (w, ok f) = (fs_close f w, use_file f)

  pub stat : Text → Text → World → World × Result Bool
  unfolding close_after fs_open within
  stat d name w = close_after disk.stat_dir (fs_open (within d name) w)

  pub read : Text → Text → World → World × Result Text
  unfolding close_after fs_open within
  read d name w = close_after disk.content (fs_open (within d name) w)

  pub list : Text → Text → World → World × Result (List Text)
  unfolding within
  list d name w = (w, disk.read_dir (within d name))

  sub_dir : Text → Text → World × Result Bool → World × Result Text
  unfolding join
  sub_dir d name (w, err e) = (w, err e)
  sub_dir d name (w, ok is_dir) = (
    w,
    (if is_dir then ok (join d name) else err (errorf "not a directory: %s" (text name ∷ []))),
  )

  pub dir : Text → Text → World → World × Result Text
  unfolding sub_dir stat clean
  dir d name w = sub_dir d (clean name) (stat d (clean name) w)

  -- The file that is recorded is the first one, the file that is returned the second one.
  open_again : Text → World × Result ℕ → World × Result ℕ
  unfolding track fs_open
  open_again name (w, err e) =
      (w, err (wrapf "failed to open file at path '%s': %w" (text name ∷ []) e))
  open_again name (w, ok f) = fs_open name (track f w)

  pub open_ : Text → Text → World → World × Result ℕ
  unfolding open_again fs_open within
  open_ d name w = open_again (within d name) (fs_open (within d name) w)

  close_opened : World × Result ℕ → World × Bool
  unfolding fs_close
  close_opened (w, err e) = (w, false)
  close_opened (w, ok f) = (fs_close f w, true)

  -- `Exists` joins the path, and so does the `Open` that it calls.
  pub exists : Text → Text → World → World × Bool
  unfolding close_opened open_ within
  exists d name w = close_opened (open_ d (within d name) w)

  -- What a template may call, on a `Dir` that it has; the result is a file that it is given.
  pub data Call : Type 0 where
    call_dir call_list call_exists call_stat call_read call_open : Text → Text → Call

  handed : World × Result ℕ → World × List ℕ
  handed (w, err e) = (w, [])
  handed (w, ok f) = (w, f ∷ [])

  pub call : Call → World → World × List ℕ
  unfolding dir list exists stat read open_ handed
  call (call_dir d name) w = ((dir d name w).0, [])
  call (call_list d name) w = ((list d name w).0, [])
  call (call_exists d name) w = ((exists d name w).0, [])
  call (call_stat d name) w = ((stat d name w).0, [])
  call (call_read d name) w = ((read d name w).0, [])
  call (call_open d name) w = handed (open_ d name w)

-- The loop of `Cleanup`. Errors of `Close` are logged at most.
pub close_all : List ℕ → World → World
unfolding fs_close
close_all [] w = w
close_all (f ∷ fs) w = close_all fs (fs_close f w)

pub cleanup : Option Error → World → World × Option Error
unfolding close_all
cleanup e w = (close_all w.opened w, e)

module _ (disk : Disk) where
  -- A template's calls in their order, and the files that it was given.
  pub run : List (Call disk) → World → World × List ℕ
  unfolding call
  run [] w = (w, [])
  run (c ∷ cs) w =
      let (w1, given) = call disk c w in let (w2, more) = run cs w1 in (w2, more ++ given)
