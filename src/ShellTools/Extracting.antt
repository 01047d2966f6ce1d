-- ===== src/ShellTools/Extracting.antt =====
-- src/tools/ShellTools.cpp: the loop over the results of a search ends, and httpGet closes the
-- handles that it opens.
use win_bot.Base.{
  ℕ, zero, suc, ◌+◌, ◌≤◌, ◌<◌, Text, text, length, Bool, true, false, ◌&&◌, Bool-cases, Option,
  Option-cases, none, some, is_some, List, [], ◌∷◌, ◌++◌, ltb, if◌then◌else◌, ◌≡◌, refl, ap, inl,
  inr, arith, ToolResult, ok, err,
}
use win_bot.ShellTools.Web.{
  Handle, session, connection, request, HandleCall, opened, closed, Response, http_get, offset_by,
  find_from, find_char_from, from_start, from_gt, from_anchor, next_result, extract_results,
  results_of, search_web, url_encode, listed,
}

offset_by_le : (pos : ℕ) (o : Option ℕ) (k : ℕ) → offset_by pos o ≡ some k → pos ≤ k
offset_by_le pos none k h = absurd cc
offset_by_le pos (some i) k h = ground arith

from_start_le :
    (start : ℕ) (o : Option ℕ) (r : ℕ × ℕ)
    → ((k : ℕ) → o ≡ some k → start ≤ k)
    → from_start start o ≡ some r
    → start ≤ r.1
from_start_le start none r b h = absurd cc
from_start_le start (some k) r b h = let e : k ≡ r.1 = ap (λ o. end_of k o) h in rw e at (b k refl)
  where
    end_of : ℕ → Option (ℕ × ℕ) → ℕ
    end_of k none = k
    end_of k (some p) = p.1

from_gt_le :
    (html : Text) (o : Option ℕ) (pos : ℕ) (r : ℕ × ℕ)
    → ((k : ℕ) → o ≡ some k → pos ≤ k)
    → from_gt html o ≡ some r
    → pos < r.1
unfolding from_gt find_from
from_gt_le html none pos r b h = absurd cc
from_gt_le html (some gt) pos r b h =
    let a = b gt refl in
    let c =
      from_start_le (gt + 1) (find_from (text "</a>") html (gt + 1)) r
        (λ k. offset_by_le (gt + 1) _ k) h in
    omega arith

from_anchor_le :
    (html : Text) (o : Option ℕ) (pos : ℕ) (r : ℕ × ℕ)
    → ((k : ℕ) → o ≡ some k → pos ≤ k)
    → from_anchor html o ≡ some r
    → pos < r.1
unfolding from_anchor find_char_from
from_anchor_le html none pos r b h = absurd cc
from_anchor_le html (some anchor) pos r b h =
    let a = b anchor refl in
    let c =
      from_gt_le html (find_char_from b'>' html anchor) anchor r (λ k. offset_by_le anchor _ k) h in
    omega arith

-- The next result ends behind the position that it is sought from.
next_result_le : (html : Text) (pos : ℕ) (r : ℕ × ℕ) → next_result html pos ≡ some r → pos < r.1
unfolding next_result find_from
next_result_le html pos r h =
    from_anchor_le html (find_from (text "result__a") html pos) pos r (λ k. offset_by_le pos _ k) h

over :
    (found : ℕ × Text) (html : Text) (pos : ℕ)
    → length html ≤ pos
    → (ltb found.0 5 && ltb pos (length html)) ≡ false
over found html pos h = ground arith

extract_results_ends :
    (n : ℕ) (html : Text) (pos : ℕ) (found : ℕ × Text)
    → length html ≤ n + pos
    → is_some (extract_results (suc n) html pos found) ≡ true
unfolding extract_results
extract_results_ends zero html pos found h = rw (over found html pos (omega arith)) refl
extract_results_ends (suc n) html pos found h =
    elim (Bool-cases (ltb found.0 5 && ltb pos (length html))) [
      | inr e ↦ rw e refl
      | inl e ↦ rw e (elim (Option-cases (next_result html pos)) [
        | inl f ↦ rw f refl
        | inr (r, f) ↦
            rw f (
              let g = next_result_le html pos r f in
              extract_results_ends n html r.1 _ (omega arith))
      ])
    ]

is_some-listed : (o : Option (ℕ × Text)) → is_some o ≡ true → is_some (listed o) ≡ true
is_some-listed none h = absurd cc
is_some-listed (some found) h = refl

is_some-results_of : (r : ToolResult) → is_some (results_of r) ≡ true
unfolding results_of
is_some-results_of (err why) = refl
is_some-results_of (ok html) =
    is_some-listed _ (extract_results_ends (length html) html 0 (0, []) (omega arith))

-- searchWeb ends on every page that the search engine may answer with: the turns that the length of
-- the page allows are enough for the loop over the results.
pub search_web_ends : (get : Text → Response) (query : Text) → is_some (search_web get query) ≡ true
unfolding search_web
search_web_ends get query =
    is_some-results_of
      (http_get (get (text "https://html.duckduckgo.com/html/?q=" ++ url_encode query))).0

abbrev same_handle : Handle → Handle → Bool
same_handle session session = true
same_handle connection connection = true
same_handle request request = true
same_handle _ _ = false

-- The handles that are open after some calls, the last first; none where a handle is closed that is
-- not the last one opened.
pub open_handles : List Handle → List HandleCall → Option (List Handle)
open_handles stack [] = some stack
open_handles stack (opened h ∷ calls) = open_handles (h ∷ stack) calls
open_handles [] (closed h ∷ calls) = none
open_handles (g ∷ stack) (closed h ∷ calls) =
    let rest = open_handles stack calls in if same_handle g h then rest else none

-- httpGet closes every handle that it opens, the last first, on each of its returns.
pub http_get_closes : (r : Response) → open_handles [] (http_get r).1 ≡ some []
unfolding http_get open_handles
http_get_closes r = go r.cracked r.session_made r.connection_made r.request_made r.answered
  where
    go :
        (a b c d e : Bool)
        → open_handles []
            (http_get (record {
              cracked = a;
              session_made = b;
              connection_made = c;
              request_made = d;
              answered = e;
              reads = r.reads;
            })).1
          ≡ some []
    go false b c d e = refl
    go true false c d e = refl
    go true true false d e = refl
    go true true true false e = refl
    go true true true true e = refl
