-- ===== src/Scheduler/Tasks.antt =====
-- src/services/Scheduler.cpp: how the list of tasks changes.
use win_bot.Base.{
  Text, text_eq, text_eq→eq, text_eq_sym, true, false, Bool-cases, Option, none, some, List, [],
  ◌∷◌, if◌then◌else◌, ◌≡◌, refl, ◌∙◌, inl, inr, arith,
}
use win_bot.Scheduler.{TaskDef, add_task, remove_task}

abbrev pub task_named : Text → List TaskDef → Option TaskDef
task_named n [] = none
task_named n (t ∷ tasks) = if text_eq t.name n then some t else task_named n tasks

-- No two tasks have one name.
abbrev pub Distinct : List TaskDef → Type 0
Distinct [] = Unit
Distinct (t ∷ tasks) = (task_named t.name tasks ≡ none) × Distinct tasks

different : (a b n : Text) → text_eq a b ≡ false → text_eq a n ≡ true → text_eq b n ≡ true → ⊥
different a b n e f g = let q = text_eq→eq b n g in cc (e, f, q)

-- Once a task is added its name means that task, and every other name means what it meant.
pub named-add :
    (n : Text) (task : TaskDef) (tasks : List TaskDef)
    → task_named n (add_task task tasks)
      ≡ (if text_eq task.name n then some task else task_named n tasks)
unfolding add_task
named-add n task [] = refl
named-add n task (t ∷ tasks) = elim (Bool-cases (text_eq t.name task.name)) [
  | inl e ↦ let p = text_eq→eq t.name task.name e in rw e (rw p (ground arith))
  | inr e ↦ rw e (
      rw (named-add n task tasks) (elim (Bool-cases (text_eq t.name n)) [
        | inl f ↦ elim (Bool-cases (text_eq task.name n)) [
          | inl g ↦ absurd (different t.name task.name n e f g)
          | inr g ↦ rw (f, g) refl
        ]
        | inr f ↦ rw f refl
      ]))
]

named-remove :
    (n k : Text) (tasks : List TaskDef)
    → task_named n (remove_task k tasks) ≡ (if text_eq k n then none else task_named n tasks)
unfolding remove_task
named-remove n k [] = ground arith
named-remove n k (t ∷ tasks) = elim (Bool-cases (text_eq t.name k)) [
  | inl e ↦
      let p = text_eq→eq t.name k e in rw e (rw (named-remove n k tasks) (rw p (ground arith)))
  | inr e ↦ rw e (
      rw (named-remove n k tasks) (elim (Bool-cases (text_eq t.name n)) [
        | inl f ↦ elim (Bool-cases (text_eq k n)) [
          | inl g ↦ absurd (different t.name k n e f g)
          | inr g ↦ rw (f, g) refl
        ]
        | inr f ↦ rw f refl
      ]))
]

Distinct-add :
    (task : TaskDef) (tasks : List TaskDef) → Distinct tasks → Distinct (add_task task tasks)
unfolding add_task
Distinct-add task [] h = (refl, tt)
Distinct-add task (t ∷ tasks) h = elim (Bool-cases (text_eq t.name task.name)) [
  | inl e ↦ let p = text_eq→eq t.name task.name e in rw e (rw p at h.0, h.1)
  | inr e ↦ rw e (
    (let r = named-add t.name task tasks in rw (r, text_eq_sym task.name t.name, e) h.0),
    Distinct-add task tasks h.1,
  )
]

Distinct-remove :
    (k : Text) (tasks : List TaskDef) → Distinct tasks → Distinct (remove_task k tasks)
unfolding remove_task
Distinct-remove k [] h = tt
Distinct-remove k (t ∷ tasks) h = elim (Bool-cases (text_eq t.name k)) [
  | inl e ↦ rw e (Distinct-remove k tasks h.1)
  | inr e ↦
      rw e (
        named-remove t.name k tasks ∙ rw (text_eq_sym k t.name, e) h.0,
        Distinct-remove k tasks h.1,
      )
]

-- A change of the list of tasks.
pub data Edit : Type 0 where
  adds : TaskDef → Edit
  removes : Text → Edit

abbrev pub edit : List TaskDef → List Edit → List TaskDef
edit tasks [] = tasks
edit tasks (adds task ∷ edits) = edit (add_task task tasks) edits
edit tasks (removes name ∷ edits) = edit (remove_task name tasks) edits

edit-Distinct :
    (tasks : List TaskDef) (edits : List Edit) → Distinct tasks → Distinct (edit tasks edits)
edit-Distinct tasks [] h = h
edit-Distinct tasks (adds task ∷ edits) h =
    edit-Distinct (add_task task tasks) edits (Distinct-add task tasks h)
edit-Distinct tasks (removes name ∷ edits) h =
    edit-Distinct (remove_task name tasks) edits (Distinct-remove name tasks h)

-- However tasks are added to an empty list and removed from it, no two of its tasks have one name.
pub reachable-Distinct : (edits : List Edit) → Distinct (edit [] edits)
reachable-Distinct edits = edit-Distinct [] edits tt
