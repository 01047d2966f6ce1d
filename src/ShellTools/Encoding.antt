-- ===== src/ShellTools/Encoding.antt =====
-- src/tools/ShellTools.cpp, searchWeb: the encoding of the query.
use win_bot.Base.{ℕ, ◌+◌, ◌-◌, ◌*◌, Text, Bool, ◌||◌, [], ◌∷◌, leb, ◌==◌, if◌then◌else◌}
use win_bot.ShellTools.Web.{is_unreserved}

-- A server's reading: `%` and two digits stand for a byte.
abbrev pub digit_value : ℕ → ℕ
digit_value c = if leb c b'9' then c - b'0' else c - b'A' + 10

pub percent_decode : Text → Text
percent_decode [] = []
percent_decode (c ∷ []) = c ∷ []
percent_decode (c ∷ d ∷ []) = c ∷ d ∷ []
percent_decode (c ∷ d ∷ e ∷ s) =
    let rest = percent_decode s in
    let next = percent_decode (d ∷ e ∷ s) in
    if c == b'%' then (digit_value d * 16 + digit_value e) ∷ rest else c ∷ next

abbrev pub is_url_char : ℕ → Bool
is_url_char c = is_unreserved c || c == b'%'
