-- ===== src/UiaDebugger/Segments/Running.antt =====
-- src/platform/uia/UIADebugger.cpp, execute: which segments run.
use win_bot.Base.{Text, true, false, Bool, List, [], ◌∷◌, ◌++◌, ◌≡◌, refl, is_empty}
use win_bot.Scheduler.{split}
use win_bot.UiaDebugger.Segments.{exec_segments, execute}

module _ {S : Type 0} (exec_segment : Text → S → Bool × S) (killed : S → Bool) where
  -- Segments that run one after the other from a state to another: each goes on, and the program is
  -- not halted before any.
  pub data Runs : List Text → S → S → Type 0 where
    nothing : {s : S} → Runs [] s s
    more :
        {seg : Text} {segs : List Text} {s s' s'' : S}
        → killed s ≡ false
        → exec_segment seg s ≡ (true, s')
        → Runs segs s' s''
        → Runs (seg ∷ segs) s s''

  exec_segments-append :
      {s s' : S} (before after : List Text)
      → Runs before s s'
      → exec_segments exec_segment killed (before ++ after) (true, s)
        ≡ exec_segments exec_segment killed after (true, s')
  unfolding exec_segments
  exec_segments-append [] after nothing = refl
  exec_segments-append {s = s} {s' = s'} (seg ∷ segs) after (more {s' = t} k e r) =
      rw (k, e) (exec_segments-append {s = t} segs after r)

  exec_segments-killed :
      (segs : List Text) (s : S)
      → killed s ≡ true
      → (exec_segments exec_segment killed segs (true, s)).1 ≡ s
  unfolding exec_segments
  exec_segments-killed [] s k = refl
  exec_segments-killed (seg ∷ segs) s k = rw k refl

  -- Once the program is halted no further segment of a line runs.
  pub execute_halts :
      (line : Text) (before after : List Text) (s s' : S)
      → is_empty line ≡ false
      → split b';' line ≡ before ++ after
      → Runs before s s'
      → killed s' ≡ true
      → (execute exec_segment killed line s).1 ≡ s'
  unfolding execute
  execute_halts line before after s s' l e r k =
      rw (l, e, exec_segments-append before after r) (exec_segments-killed after s' k)
