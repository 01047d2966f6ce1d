-- ===== src/ShellTools/Draining.antt =====
-- src/tools/ShellTools.cpp, runCommand: the output that is kept, over all the turns of the wait.
use win_bot.Base.{
  text, ok, show_nat, ◌==◌, if◌then◌else◌, ℕ, zero, suc, ◌+◌, ◌-◌, ◌≤◌, min, Text, is_empty, length,
  length-append, length-take, take, Bool, true, false, Bool-cases, some, List, [], ◌∷◌, ◌++◌,
  append-nil, append_assoc, All, ltb, leb, ◌≡◌, refl, sym, ◌∙◌, ap, arith, inl, inr,
}
use win_bot.ShellTools.{
  Round, Drained, exited, Child, add_chunk, drain, wait_loop, report, reported, run_child,
}

-- The first `cap` bytes of a text, and whether there are more.
abbrev pub capped : ℕ → Text → Drained
capped cap s = record { output = take cap s; truncated = ltb cap (length s) }

abbrev pub NonEmpty : Text → Type 0
NonEmpty s = is_empty s ≡ false

abbrev pub joined : List Text → Text
joined [] = []
joined (s ∷ ss) = s ++ joined ss

minus_zero : (n : ℕ) → n - 0 ≡ n
minus_zero n = omega arith

take_more :
    (cap : ℕ) (s b : Text) → take cap s ++ take (cap - length (take cap s)) b ≡ take cap (s ++ b)
take_more zero s b = refl
take_more (suc cap) [] b = rw (minus_zero (suc cap)) refl
take_more (suc cap) (x ∷ s) b =
    let e : suc cap - suc (length (take cap s)) ≡ cap - length (take cap s) = omega arith in
    ap (λ l. x ∷ l) (rw e (take_more cap s b))

take-min : (n : ℕ) (s : Text) → take (min (length s) n) s ≡ take n s
take-min zero s = let e : min (length s) 0 ≡ 0 = omega arith in rw e refl
take-min (suc n) [] = let e : min 0 (suc n) ≡ 0 = omega arith in rw e refl
take-min (suc n) (x ∷ s) =
    let e : min (suc (length s)) (suc n) ≡ suc (min (length s) n) = omega arith in
    rw e (ap (λ l. x ∷ l) (take-min n s))

nonempty-length : (s : Text) → NonEmpty s → 1 ≤ length s
nonempty-length [] h = absurd cc
nonempty-length (x ∷ s) h = omega arith

drained :
    {o o' : Text} {t t' : Bool}
    → o ≡ o'
    → t ≡ t'
    → ◌≡◌ {A = Drained}
        (record { output = o; truncated = t })
        (record { output = o'; truncated = t' })
drained p q = rw (p, q) refl

-- A read that adds to what is kept of `s` leaves what is kept of `s` and the bytes read.
add_chunk-capped :
    (cap : ℕ) (s bytes : Text)
    → NonEmpty bytes
    → add_chunk cap bytes (capped cap s) ≡ capped cap (s ++ bytes)
unfolding add_chunk
add_chunk-capped cap s bytes h =
    let l = length-take cap s in
    let a = length-append s bytes in
    let n = nonempty-length bytes h in
    elim (Bool-cases (ltb (length (take cap s)) cap)) [
      | inl e ↦ rw e (
          drained (rw (take-min (cap - length (take cap s)) bytes) (take_more cap s bytes))
            (ground arith))
      | inr e ↦
          let z : cap - length (take cap s) ≡ 0 = ground arith in
          rw e (
            drained (sym (append-nil (take cap s)) ∙ rw z at (take_more cap s bytes))
              (ground arith))
    ]

drain-capped :
    (cap : ℕ) (s : Text) (chunks : List Text)
    → All NonEmpty chunks
    → drain cap chunks (capped cap s) ≡ capped cap (s ++ joined chunks)
unfolding drain
drain-capped cap s [] h = rw (append-nil s) refl
drain-capped cap s (bytes ∷ chunks) h =
    rw (h.0, add_chunk-capped cap s bytes h.0)
      (drain-capped cap (s ++ bytes) chunks h.1
        ∙ ap (capped cap) (append_assoc s bytes (joined chunks)))

-- A turn that neither meets a stop request, nor finds the process ended, nor reaches the deadline.
pub record GoesOn (deadline : ℕ) (r : Round) : Type 0 where
  pub unstopped : r.stop ≡ false
  pub running : r.signaled ≡ false
  pub early : leb deadline r.clock ≡ false
  pub read : All NonEmpty r.chunks

abbrev pub read_of : List Round → Text
read_of [] = []
read_of (r ∷ rounds) = joined r.chunks ++ read_of rounds

module _ (cap deadline : ℕ) where
  wait_on :
      (s : Text) (before : List Round) (r : Round) (later : List Round)
      → All (GoesOn deadline) before
      → wait_loop cap deadline (before ++ r ∷ later) (capped cap s)
        ≡ wait_loop cap deadline (r ∷ later) (capped cap (s ++ read_of before))
  unfolding wait_loop
  wait_on s [] r later h = rw (append-nil s) refl
  wait_on s (x ∷ before) r later h =
      let g = h.0 in
      simp (g.unstopped, g.running, g.early)
        (rw (drain-capped cap s x.chunks g.read) (
          wait_on (s ++ joined x.chunks) before r later h.1
          ∙ ap (λ t. wait_loop cap deadline (r ∷ later) (capped cap t))
              (append_assoc s (joined x.chunks) (read_of before))))

capped_nil : (cap : ℕ) → record { output = []; truncated = false } ≡ capped cap []
capped_nil zero = refl
capped_nil (suc cap) = drained refl (ground arith)

last_turn :
    (cap deadline : ℕ) (s : Text) (r : Round) (later : List Round)
    → r.stop ≡ false
    → r.signaled ≡ true
    → All NonEmpty r.chunks
    → wait_loop cap deadline (r ∷ later) (capped cap s)
      ≡ some (exited, capped cap (s ++ joined r.chunks))
unfolding wait_loop
last_turn cap deadline s r later u g n =
    simp (u, g) (ap (λ d. some (exited, d)) (drain-capped cap s r.chunks n))

-- What is shown of an output: its first `cap` bytes, and a note if there are more.
abbrev pub shown : ℕ → Text → Text
shown cap output =
    if ltb cap (length output)
    then take cap output ++ text "\n[WinBot: output truncated at 4 MiB]"
    else take cap output

-- The text of a result: a placeholder for nothing, and an exit code that is not 0 before the rest.
abbrev pub with_exit_code : ℕ → Text → Text
with_exit_code code output =
    if code == 0
    then if is_empty output then text "(no output)" else output
    else text "Exit " ++ show_nat code ++ text "\n" ++ output

report_exited :
    (cap timeout : ℕ) (child : Child) (output : Text)
    → report cap timeout child (exited, capped cap output)
      ≡ ok (with_exit_code child.exit_code (shown cap output))
unfolding report
report_exited cap timeout child output = elim (Bool-cases (child.exit_code == 0)) [
  | inl e ↦ rw e refl
  | inr e ↦ rw e refl
]

-- A command whose process ends by itself gives an ok result: all that was read of it, in order, cut
-- at the cap and with a note if there was more, "(no output)" in place of nothing, and behind the
-- exit code if that is not 0; when the pipe and the process could be created, no turn of the wait
-- before found a stop request, an ended process or a clock at the deadline, the last one found no
-- stop request, and no read gave no bytes.
pub run_child_exit :
    (cap timeout : ℕ) (child : Child) (before : List Round) (r : Round) (later : List Round)
    → child.pipe ≡ true
    → child.created ≡ true
    → child.rounds ≡ before ++ r ∷ later
    → All (GoesOn (child.started + timeout)) before
    → r.stop ≡ false
    → r.signaled ≡ true
    → All NonEmpty r.chunks
    → run_child cap timeout child
      ≡ some (ok (with_exit_code child.exit_code (shown cap (read_of before ++ joined r.chunks))))
unfolding run_child
run_child_exit cap timeout child before r later p c rs h u g n =
    let ended =
      ap (wait_loop cap (child.started + timeout) (before ++ r ∷ later)) (capped_nil cap)
      ∙ (wait_on cap (child.started + timeout) [] before r later h
          ∙ last_turn cap (child.started + timeout) (read_of before) r later u g n) in
    simp (p, c, rs)
      (ap (reported cap timeout child) ended
        ∙ ap some (report_exited cap timeout child (read_of before ++ joined r.chunks)))
