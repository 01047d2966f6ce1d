-- ===== src/SiteProfiles/Naming.antt =====
-- src/services/SiteProfileRegistry.cpp: the file names of profiles, and the profile of a URL.
use win_bot.Base.{
  ℕ, Text, text, is_empty, map, contains, true, false, Bool-cases, some, List, [], ◌∷◌, ◌++◌, All,
  ◌≡◌, refl, inl, inr, arith,
}
use win_bot.SiteProfiles.{SiteProfile, matches_url, match, is_name_char, safe_char, safe_name}

abbrev pub IsNameChar : ℕ → Type 0
IsNameChar c = is_name_char c ≡ true

safe_char-IsNameChar : (c : ℕ) → IsNameChar (safe_char c)
safe_char-IsNameChar c = elim (Bool-cases (is_name_char c)) [ inl e ↦ rw e e | inr e ↦ rw e refl ]

map-IsNameChar : (s : Text) → All IsNameChar (map safe_char s)
map-IsNameChar [] = tt
map-IsNameChar (c ∷ s) = (safe_char-IsNameChar c, map-IsNameChar s)

map_kept : (s : Text) → All IsNameChar s → map safe_char s ≡ s
map_kept [] h = refl
map_kept (c ∷ s) h = let e = map_kept s h.1 in rw (h.0, e) refl

-- Whatever name a profile is saved under, its file's name is not empty, and made of letters,
-- digits, '-' and '_' alone.
pub safe_name_lem :
    (name : Text) → (is_empty (safe_name name) ≡ false) × All IsNameChar (safe_name name)
unfolding safe_name text
safe_name_lem [] = (refl, ground arith)
safe_name_lem (c ∷ name) = (refl, map-IsNameChar (c ∷ name))

-- A name of that kind is kept as it is.
pub safe_name_kept :
    (c : ℕ) (name : Text) → All IsNameChar (c ∷ name) → safe_name (c ∷ name) ≡ c ∷ name
unfolding safe_name
safe_name_kept c name h = map_kept (c ∷ name) h

abbrev pub Passes : Text → SiteProfile → Type 0
Passes url profile = matches_url url profile ≡ false

-- The profile of a URL is the first whose pattern is not empty and occurs in the URL.
pub match_first :
    (url : Text) (before : List SiteProfile) (profile : SiteProfile) (after : List SiteProfile)
    → All (Passes url) before
    → is_empty profile.url_match ≡ false
    → contains url profile.url_match ≡ true
    → match url (before ++ profile ∷ after) ≡ some profile
unfolding match matches_url
match_first url [] profile after h n c = rw (n, c) refl
match_first url (p ∷ before) profile after h n c =
    let rest = match_first url before profile after h.1 n c in let e = h.0 in rw e rest
