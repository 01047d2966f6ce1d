-- ===== src/Tests/SiteProfiles.antt =====
-- src/services/SiteProfileRegistry.cpp at concrete names and URLs.
use win_bot.Base.{Text, text, contains, starts_with, some, [], ◌∷◌, ◌≡◌, refl}
use win_bot.SiteProfiles.{SiteProfile, matches_url, match, safe_name}

abbrev profile_of : Text → SiteProfile
profile_of pattern = record { url_match = pattern; items = [] }

dots_replaced : safe_name (text "../evil") ≡ text "___evil"
unfolding safe_name text
dots_replaced = refl

-- The first profile that fits, past one without a pattern.
shop_found :
    match
      (text "https://shop.example")
      (profile_of [] ∷ profile_of (text "news") ∷ profile_of (text "shop") ∷ [])
    ≡ some (profile_of (text "shop"))
unfolding text match matches_url contains starts_with
shop_found = refl
