-- ===== src/Fs/Handles.antt =====
-- Which files are open after the calls of a template on the file system field.
use xtemplate.Prelude.{
  ℕ, ◌≤◌, ◌≡◌, refl, ◌∙◌, arith, Bool, true, false, not, ◌&&◌, ◌||◌, Option-cases, inl, inr, Option,
  List, [], ◌∷◌, ◌++◌, Text, any, ◌==◌,
}
use xtemplate.Prelude.Errors.{Error, Result, ok, err}
use xtemplate.Paths.{clean}
use xtemplate.Fs.{
  run, Disk, World, fs_close, track, within, fs_open, close_after, stat, read, list, sub_dir, dir,
  open_again, open_, close_opened, exists, Call, call_dir, call_list, call_exists, call_stat,
  call_read, call_open, handed, call, close_all, cleanup,
}

abbrev pub among : ℕ → List ℕ → Bool
among h hs = any (λ f. f == h) hs

-- The open files are those of `base`, of which `Cleanup` knows nothing, and those of `opened`.
pub record Tracks (base : ℕ → Bool) (w : World) : Type 0 where
  pub live : (h : ℕ) → w.live h ≡ (base h || among h w.opened)
  pub fresh : (h : ℕ) → w.next ≤ h → w.live h ≡ false
  pub apart : (h : ℕ) → among h w.opened ≡ true → base h ≡ false

-- After an `Open` the file that it returned is open and was not among the others.
Gave : (ℕ → Bool) → World × Result ℕ → Type 0
Gave base (w, err e) = Tracks base w
Gave base (w, ok f) = Tracks (λ h. f == h || base h) w × (base f ≡ false)

fs_open-Gave :
    (disk : Disk) (base : ℕ → Bool) (name : Text) (w : World)
    → Tracks base w
    → Gave base (fs_open disk name w)
unfolding fs_open Gave
fs_open-Gave disk base name w t = elim (Option-cases (disk.open_error w.next name)) [
  | inr (e, fails) ↦
      rw (fs_open, fails)
        (record { live = t.live; fresh = λ h le. t.fresh h (omega (arith, le)); apart = t.apart })
  | inl fine ↦
      rw (fs_open, fine)
        (
          record {
            live = λ h. ground (arith, t.live h);
            fresh = λ h le. ground (arith, t.fresh h (omega (arith, le)), le);
            apart = λ h known. ground (arith, known, t.apart h known, t.live h, t.fresh w.next);
          },
          ground (arith, t.live w.next, t.fresh w.next),
        )
]

fs_close-Tracks :
    (base : ℕ → Bool) (f : ℕ) (w : World) → Gave base (w, ok f) → Tracks base (fs_close f w)
unfolding fs_close Gave
fs_close-Tracks base f w (t, new) = record {
  live = λ h. ground (arith, t.live h, t.apart h, new);
  fresh = λ h le. ground (arith, t.fresh h le);
  apart = λ h known. ground (arith, t.apart h known);
}

track-Tracks : (base : ℕ → Bool) (f : ℕ) (w : World) → Gave base (w, ok f) → Tracks base (track f w)
unfolding track Gave
track-Tracks base f w (t, new) = record {
  live = λ h. ground (arith, t.live h);
  fresh = λ h le. t.fresh h le;
  apart = λ h known. ground (arith, t.apart h, new, known);
}

close_after-Tracks :
    {A : Type 0} (disk : Disk) (base : ℕ → Bool) (use_file : ℕ → Result A) (r : World × Result ℕ)
    → Gave base r
    → Tracks base (close_after disk use_file r).0
unfolding close_after Gave
close_after-Tracks disk base use_file (w, err e) g = g
close_after-Tracks disk base use_file (w, ok f) g = fs_close-Tracks base f w g

open_again-Gave :
    (disk : Disk) (base : ℕ → Bool) (name : Text) (r : World × Result ℕ)
    → Gave base r
    → Gave base (open_again disk name r)
unfolding open_again Gave
open_again-Gave disk base name (w, err e) g = g
open_again-Gave disk base name (w, ok f) g =
    fs_open-Gave disk base name (track f w) (track-Tracks base f w g)

open_-Gave :
    (disk : Disk) (base : ℕ → Bool) (d name : Text) (w : World)
    → Tracks base w
    → Gave base (open_ disk d name w)
unfolding open_
open_-Gave disk base d name w t = open_again-Gave disk base _ _ (fs_open-Gave disk base _ w t)

close_opened-Tracks :
    (disk : Disk) (base : ℕ → Bool) (r : World × Result ℕ)
    → Gave base r
    → Tracks base (close_opened disk r).0
unfolding close_opened Gave
close_opened-Tracks disk base (w, err e) g = g
close_opened-Tracks disk base (w, ok f) g = fs_close-Tracks base f w g

sub_dir-0 :
    (disk : Disk) (d name : Text) (r : World × Result Bool) → (sub_dir disk d name r).0 ≡ r.0
unfolding sub_dir
sub_dir-0 disk d name (w, err e) = refl
sub_dir-0 disk d name (w, ok b) = refl

-- The files of `base`, and those that were given to the template.
abbrev pub with_given : (ℕ → Bool) → List ℕ → ℕ → Bool
with_given base hs h = among h hs || base h

handed-Tracks :
    (disk : Disk) (base : ℕ → Bool) (r : World × Result ℕ)
    → Gave base r
    → Tracks (with_given base (handed disk r).1) (handed disk r).0
unfolding handed Gave
handed-Tracks disk base (w, err e) g = g
handed-Tracks disk base (w, ok f) (t, new) = record {
  live = λ h. ground (arith, t.live h);
  fresh = λ h le. t.fresh h le;
  apart = λ h known. ground (arith, t.apart h known);
}

stat-Tracks :
    (disk : Disk) (base : ℕ → Bool) (d name : Text) (w : World)
    → Tracks base w
    → Tracks base (stat disk d name w).0
unfolding stat
stat-Tracks disk base d name w t =
    close_after-Tracks disk base disk.stat_dir _ (fs_open-Gave disk base _ w t)

call-Tracks :
    (disk : Disk) (base : ℕ → Bool) (c : Call disk) (w : World)
    → Tracks base w
    → Tracks (with_given base (call disk c w).1) (call disk c w).0
unfolding call dir list exists read
call-Tracks disk base (call_dir d name) w t =
    rw (sub_dir-0 disk d (clean name) (stat disk d (clean name) w))
      (stat-Tracks disk base d (clean name) w t)
call-Tracks disk base (call_list d name) w t = t
call-Tracks disk base (call_exists d name) w t =
    close_opened-Tracks disk base _ (open_-Gave disk base d (within d name) w t)
call-Tracks disk base (call_stat d name) w t = stat-Tracks disk base d name w t
call-Tracks disk base (call_read d name) w t =
    close_after-Tracks disk base disk.content _ (fs_open-Gave disk base _ w t)
call-Tracks disk base (call_open d name) w t =
    handed-Tracks disk base _ (open_-Gave disk base d name w t)

among-append : (h : ℕ) (xs ys : List ℕ) → among h (xs ++ ys) ≡ (among h xs || among h ys)
among-append h [] ys = refl
among-append h (x ∷ xs) ys = rw (among-append h xs ys) (ground arith)

Tracks-base :
    (base other : ℕ → Bool) (w : World)
    → ((h : ℕ) → other h ≡ base h)
    → Tracks base w
    → Tracks other w
Tracks-base base other w same t = record {
  live = λ h. rw (same h) (t.live h);
  fresh = t.fresh;
  apart = λ h known. same h ∙ t.apart h known;
}

run-Tracks :
    (disk : Disk) (base : ℕ → Bool) (cs : List (Call disk)) (w : World)
    → Tracks base w
    → Tracks (with_given base (run disk cs w).1) (run disk cs w).0
unfolding run
run-Tracks disk base [] w t = t
run-Tracks disk base (c ∷ cs) w t =
    let first = call disk c w in
    let rest = run disk cs first.0 in
    Tracks-base _ _ _ (λ h. rw (among-append h rest.1 first.1) (ground arith))
      (run-Tracks disk (with_given base first.1) cs first.0 (call-Tracks disk base c w t))

live-close_all :
    (fs : List ℕ) (w : World) (h : ℕ) → (close_all fs w).live h ≡ (not (among h fs) && w.live h)
unfolding close_all fs_close
live-close_all [] w h = refl
live-close_all (f ∷ fs) w h = live-close_all fs (fs_close f w) h ∙ ground arith

-- After any calls of a template on a fresh file system field, on directories of any depth and whatever
-- opens, `Cleanup` leaves open exactly the files that were open before and those that `Open` has
-- returned to the template: it closes every other file, and none that the template was given.
pub cleanup_leaves :
    (disk : Disk) (cs : List (Call disk)) (w : World) (e : Option Error) (h : ℕ)
    → w.opened ≡ []
    → ((g : ℕ) → w.next ≤ g → w.live g ≡ false)
    → (cleanup e (run disk cs w).0).0.live h ≡ (among h (run disk cs w).1 || w.live h)
unfolding cleanup
cleanup_leaves disk cs w e h none_opened fresh =
    let start : Tracks w.live w = record {
      live = λ g. rw none_opened (ground arith);
      fresh = fresh;
      apart = λ g known. absurd (ground (arith, rw none_opened at known));
    } in
    let t = run-Tracks disk w.live cs w start in
    live-close_all (run disk cs w).0.opened (run disk cs w).0 h
    ∙ ground (arith, t.live h, t.apart h)
