-- ===== src/FileTools/Guarding.antt =====
-- src/tools/FileTools.cpp: a refused call touches nothing, and what is written is read back.
use win_bot.Base.{
  ℕ, zero, suc, ◌+◌, ◌≤◌, Text, text, length, length-append, length-take, take, false, Bool-cases,
  Option, none, some, [], ◌∷◌, Outcome, returned, ToolResult, ok, err, ltb, ◌≡◌, ◌⊎◌, refl, inl,
  inr, arith, ap,
}
use win_bot.Json.{JsonApi}
use win_bot.Permission.{System}
use win_bot.Permission.Checks.{granted, check_path, check_file_delete}
use win_bot.FileTools.{
  FileApi, Perms, max_read, truncated, read_file, write_file, after_open, read_result, path_check,
  delete_check, guard, read_file_tool, write_file_tool, append_file_tool, list_directory_tool,
  delete_file_tool, copy_file_tool,
}

take_all : (n : ℕ) (s : Text) → length s ≤ n → take n s ≡ s
take_all zero [] h = refl
take_all zero (c ∷ s) h = absurd (omega arith)
take_all (suc n) [] h = refl
take_all (suc n) (c ∷ s) h = ap (λ l. c ∷ l) (take_all n s (omega arith))

-- What a read gives: the whole file, or its first part and a note.
truncated_short : (n : ℕ) (s : Text) → length s ≤ n → truncated n s ≡ s
unfolding truncated
truncated_short n s h =
    let e = take_all (n + 1) s (omega arith) in
    let f : ltb n (length s) ≡ false = ground arith in rw e (rw f refl)

length-truncated : (n : ℕ) (s : Text) → length (truncated n s) ≤ n + 24
unfolding truncated text
length-truncated n s = elim (Bool-cases (ltb n (length (take (n + 1) s)))) [
  | inl e ↦ rw e (
      let a = length-append (take n (take (n + 1) s)) (text "\n... (truncated at 32KB)") in
      let b = length-take n (take (n + 1) s) in omega arith)
  | inr e ↦ rw e (ground arith)
]

-- A path that may not be used may not be deleted either.
delete_check_refused :
    (sys : System) (perms : Option Perms) (path why : Text)
    → path_check sys perms path ≡ err why
    → delete_check sys perms path ≡ err why
unfolding path_check delete_check check_file_delete
delete_check_refused sys none path why h = absurd cc
delete_check_refused sys (some perms) path why h =
    let g : check_path sys perms.cfg perms.mcp path ≡ err why = h in
    rw (g, delete_check, check_file_delete) refl

module _ {D J : Type 0} (files : FileApi D) (sys : System) (api : JsonApi J) (perms : Option Perms)
    (args : J) (d : D) where
  -- A path that the permission system refuses is refused by each of the five tools that take one
  -- path, with its reason, and the disk is as it was.
  pub refused_untouched :
      (path why : Text)
      → api.value_text args (text "path") [] ≡ returned path
      → api.value_text args (text "path") (text ".") ≡ returned path
      → path_check sys perms path ≡ err why
      → (read_file_tool files sys api perms args d ≡ (returned (err why), d))
        × (write_file_tool files sys api perms args d ≡ (returned (err why), d))
        × (append_file_tool files sys api perms args d ≡ (returned (err why), d))
        × (list_directory_tool files sys api perms args d ≡ (returned (err why), d))
        × (delete_file_tool files sys api perms args d ≡ (returned (err why), d))
  unfolding read_file_tool write_file_tool append_file_tool list_directory_tool delete_file_tool
      guard
  refused_untouched path why p q h = (
    rw (p, h) refl,
    rw (p, h) refl,
    rw (p, h) refl,
    rw (q, h) refl,
    rw (p, delete_check_refused sys perms path why h) refl,
  )

  -- A copy is refused, with the reason, when the permission system refuses its source, and when it
  -- allows the source and refuses the target; the disk is as it was.
  pub copy_refused :
      (source target why : Text)
      → api.value_text args (text "src") [] ≡ returned source
      → api.value_text args (text "dst") [] ≡ returned target
      → ((path_check sys perms source ≡ err why)
          ⊎ ((path_check sys perms source ≡ granted) × (path_check sys perms target ≡ err why)))
      → copy_file_tool files sys api perms args d ≡ (returned (err why), d)
  unfolding copy_file_tool guard
  copy_refused source target why r t (inl h) = rw (r, t, h) refl
  copy_refused source target why r t (inr h) = rw (r, t, h.0, h.1) refl

abbrev text_of : Outcome ToolResult → Text
text_of (returned (ok s)) = s
text_of _ = []

module _ {D : Type 0} (files : FileApi D) (sys : System) where
  -- A file of at most 32768 bytes is read back as it was written: if its directories can be made
  -- and the file be written, where the disk gives back what was written last.
  pub read_file-write_file :
      (path content : Text) (d made written : D)
      → files.create_parents d (sys.to_wide path) ≡ returned made
      → files.write made (sys.to_wide path) content ≡ some written
      → files.read written (sys.to_wide path) ≡ some content
      → length content ≤ max_read
      → (write_file files sys path content d).1 ≡ written
        × read_file files sys path written ≡ (returned (ok content), written)
  unfolding write_file read_file after_open read_result
  read_file-write_file path content d made written c w r l =
      (rw (c, w) refl, rw r (rw (truncated_short max_read content l) refl))

  -- The result of a read is never longer than the limit and the note of 24 bytes.
  pub read_file_bounded :
      (path : Text) (d : D) (result : Text)
      → (read_file files sys path d).0 ≡ returned (ok result)
      → length result ≤ max_read + 24
  unfolding read_file read_result
  read_file_bounded path d result h = go (files.read d (sys.to_wide path)) h
    where
      go :
          (o : Option Text)
          → returned (read_result files sys path o) ≡ returned (ok result)
          → length result ≤ max_read + 24
      go none h = absurd cc
      go (some bytes) h = let l = length-truncated max_read bytes in rw (ap text_of h) at l
