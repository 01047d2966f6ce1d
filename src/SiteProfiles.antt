-- ===== src/SiteProfiles.antt =====
-- src/services/SiteProfileRegistry.h and .cpp: the profiles of web sites, and which one a URL has.
pub mod Naming
use win_bot.Base.{
  ℕ, Text, text, text_eq, is_empty, contains, map, Bool, true, false, not, ◌&&◌, ◌||◌, Option, none,
  some, List, [], ◌∷◌, ◌++◌, Outcome, returned, threw, threw_unknown, ◌>>=◌, ToolResult, ok, err,
  leb, ◌==◌, if◌then◌else◌,
}
use win_bot.Base.Exec.{Exec, continue}
use win_bot.Json.{JsonApi}

pub record SiteProfileItem : Type 0 where
  pub name : Text
  pub selector : Text
  pub extract : Text
  pub is_array : Bool

pub record SiteProfile : Type 0 where
  pub url_match : Text
  pub items : List SiteProfileItem

-- An entry of the directory; `content` is what opening the file and json::parse give.
pub record Entry (J : Type 0) : Type 0 where
  pub extension : Text
  pub content : Outcome J

module _ {J : Type 0} (api : JsonApi J) where
  read_item : J → Outcome SiteProfileItem
  read_item j = api.value_text j (text "name") [] >>= λ name.
      api.value_text j (text "selector") [] >>= λ selector.
      api.value_text j (text "extract") (text "text") >>= λ extract.
      api.value_bool j (text "is_array") false >>= λ is_array.
      returned (record { name = name; selector = selector; extract = extract; is_array = is_array })

  read_items : List J → Outcome (List SiteProfileItem)
  unfolding read_item
  read_items [] = returned []
  read_items (j ∷ js) = read_item j >>= λ item. read_items js >>= λ items. returned (item ∷ items)

  -- The member "extract_items", where it is an array.
  listed_items : J → Outcome (List J)
  listed_items j =
      if api.contains j (text "extract_items")
      then (api.at j (text "extract_items")
          >>= (λ v. returned (if api.is_array v then api.elements v else [])))
      else returned []

  unfoldable pub read_profile : J → Outcome SiteProfile
  unfolding read_items listed_items
  read_profile j = api.value_text j (text "url_match") [] >>= λ url_match.
      listed_items j >>= λ listed.
      read_items listed >>= λ items. returned (record { url_match = url_match; items = items })

  -- The handler around one file: what throws a std::exception is left out.
  keep_profile : Outcome SiteProfile → Exec (List SiteProfile) (Unit {0})
  keep_profile (returned profile) profiles = (returned tt, profiles ++ profile ∷ [])
  keep_profile (threw what) profiles = (returned tt, profiles)
  keep_profile threw_unknown profiles = (threw_unknown, profiles)

  unfoldable pub load_files : List (Entry J) → Exec (List SiteProfile) (Unit {0})
  unfolding keep_profile read_profile
  load_files [] profiles = (returned tt, profiles)
  load_files (entry ∷ entries) profiles =
      if text_eq entry.extension (text ".json")
      then (let (o, kept) = keep_profile (entry.content >>= read_profile) profiles in
          continue o (λ _. load_files entries) kept)
      else load_files entries profiles

  -- reload(); `none` is a directory that does not exist.
  unfoldable pub reload : Option (List (Entry J)) → Exec (List SiteProfile) (Unit {0})
  unfolding load_files
  reload none profiles = (returned tt, [])
  reload (some entries) profiles = load_files entries []

unfoldable pub matches_url : Text → SiteProfile → Bool
matches_url url profile = not (is_empty profile.url_match) && contains url profile.url_match

unfoldable pub match : Text → List SiteProfile → Option SiteProfile
unfolding matches_url
match url [] = none
match url (profile ∷ profiles) =
    if matches_url url profile then some profile else match url profiles

-- std::isalnum in the "C" locale, '-' or '_'
abbrev pub is_name_char : ℕ → Bool
is_name_char c =
    (leb b'0' c && leb c b'9')
    || (leb b'A' c && leb c b'Z')
    || (leb b'a' c && leb c b'z')
    || c == b'-'
    || c == b'_'

abbrev pub safe_char : ℕ → ℕ
safe_char c = if is_name_char c then c else b'_'

unfoldable pub safe_name : Text → Text
safe_name [] = text "unnamed_profile"
safe_name (c ∷ name) = map safe_char (c ∷ name)

-- The disk that the profiles are kept on: opening a file for writing empties it, a stream that
-- does not open writes nothing and throws nothing.
pub record Store (D J : Type 0) : Type 0 where
  pub truncate : D → Text → D
  pub put : D → Text → Text → D
  pub entries : D → Option (List (Entry J))
  pub file_of : Text → Text
  pub dump_indented : J → Outcome Text

pub record Profiles (D : Type 0) : Type 0 where
  pub disk : D
  pub profiles : List SiteProfile

module _ {D J : Type 0} (api : JsonApi J) (store : Store D J) where
  -- The rest of saveProfile, once the file has been written.
  after_save : Text → Outcome (Unit {0}) × List SiteProfile → D → Outcome ToolResult × Profiles D
  after_save name (returned _, profiles) disk = (
    returned (ok (text "Profile '" ++ name ++ text "' saved to " ++ store.file_of name)),
    record { disk = disk; profiles = profiles },
  )
  after_save name (threw what, profiles) disk =
      (threw what, record { disk = disk; profiles = profiles })
  after_save name (threw_unknown, profiles) disk =
      (threw_unknown, record { disk = disk; profiles = profiles })

  write_profile : Text → Outcome Text → Exec (Profiles D) ToolResult
  unfolding reload after_save
  write_profile name (returned content) s =
      let disk = store.put (store.truncate s.disk name) name content in
      after_save name (reload api (store.entries disk) s.profiles) disk
  write_profile name (threw what) s = (
    returned (err (text "Failed to save profile: " ++ what)),
    record s { disk = store.truncate s.disk name },
  )
  write_profile name threw_unknown s =
      (threw_unknown, record s { disk = store.truncate s.disk name })

  unfoldable pub save_profile : Text → J → Exec (Profiles D) ToolResult
  unfolding write_profile safe_name
  save_profile name profile s =
      if not (api.contains profile (text "url_match"))
      then (returned (err (text "Profile missing 'url_match'")), s)
      else write_profile (safe_name name) (store.dump_indented profile) s
