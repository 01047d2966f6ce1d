-- ===== src/Mcp/Survival.antt =====
-- src/core/McpServer.cpp: the loop of run() outlives every line, if errors can be dumped.
use win_bot.Base.{
  Text, text, ◌≡◌, ◌≢◌, refl, ap, true, false, Bool-cases, inl, inr, List, [], ◌∷◌, ◌++◌, Outcome,
  returned, threw, threw_unknown,
}
use win_bot.Base.Exec.{continue}
use win_bot.Json.{JsonApi}
use win_bot.Mcp.{Server, write, send, send_error, parse_error, internal_error, error_message}
use win_bot.Mcp.Handlers.{process_message}
use win_bot.Mcp.Loop.{is_blank, report, catch_message, parsed_line, handle_line, serve}
use win_bot.Mcp.Reliable.{Reliable}
use win_bot.Mcp.Lines.{
  Handled, handled, unreported, request_served_once, notification_silent, null_message_std,
}

module _ {J : Type 0} (api : JsonApi J) where
  -- The report of an error in a line cannot be dumped: that of a line that does not parse, or that of
  -- an error that the handler throws in the state `s`. The dump throws `w`.
  pub data Unprintable (line w : Text) (s : Server J) : Type 0 where
    of_parse :
        (what : Text)
        → api.parse line ≡ threw what
        → api.dump (error_message api api.null parse_error (text "Parse error: " ++ what)) ≡ threw w
        → Unprintable line w s
    of_message :
        (msg id : J) (what : Text)
        → api.parse line ≡ returned msg
        → api.at msg (text "id") ≡ returned id
        → process_message api msg s ≡ (threw what, s)
        → api.dump (error_message api id internal_error (text "Internal error: " ++ what)) ≡ threw w
        → Unprintable line w s

  -- A round of the loop on a line: it goes on, or breaks on a report, with nothing changed.
  data RoundEnds (line : Text) (s : Server J) : Outcome (Unit {0}) × Server J → Type 0 where
    goes_on : {s' : Server J} → RoundEnds line s (returned tt, s')
    breaks : {w : Text} → Unprintable line w s → RoundEnds line s (threw w, s)

  -- How the loop over `lines` comes to its end: it returns, or it breaks at a line whose error cannot
  -- be reported, after it has served the lines before it.
  pub data Ended (lines : List Text) (s : Server J) : Outcome (Unit {0}) × Server J → Type 0 where
    returns : {s' : Server J} → Ended lines s (returned tt, s')
    breaks_at :
        (before : List Text) (line : Text) (after : List Text) {w : Text} {s' : Server J}
        → lines ≡ before ++ line ∷ after
        → serve api before s ≡ (returned tt, s')
        → Unprintable line w s'
        → Ended lines s (threw w, s')

module _ {J : Type 0} {api : JsonApi J} (ok : Reliable api) where
  -- Nothing but a std::exception, and what that does is not asked.
  abbrev Std : Outcome (Unit {0}) × Server J → Type 0
  Std r = r.0 ≢ threw_unknown

  null_caught :
      (msg id : J) (r : Outcome (Unit {0}) × Server J)
      → api.contains msg (text "id") ≡ true
      → api.at msg (text "id") ≡ returned id
      → api.is_null id ≡ true
      → Std r
      → (s' : Server J) × (catch_message api msg r ≡ (returned tt, s'))
  unfolding catch_message report
  null_caught msg id (returned a, s) c p n h = (s, refl)
  null_caught msg id (threw what, s) c p n h = (s, rw (c, p, n))
  null_caught msg id (threw_unknown, s) c p n h = absurd (h refl)

  parse_reported :
      (line what : Text) (s : Server J)
      → api.parse line ≡ threw what
      → RoundEnds api line s (parsed_line api (threw what) s)
  unfolding parsed_line send_error send write
  parse_reported line what s thrown = go (api.dump reply) refl
    where
      reply : J
      reply = error_message api api.null parse_error (text "Parse error: " ++ what)

      go : (o : Outcome Text) → api.dump reply ≡ o → RoundEnds api line s (write api reply o s)
      go (returned text') e = goes_on
      go (threw w) e = breaks (of_parse what thrown e)
      go threw_unknown e = absurd (ok.dump reply e)

  handle_line_total : (line : Text) (s : Server J) → RoundEnds api line s (handle_line api line s)
  unfolding handle_line
  handle_line_total line s = elim (Bool-cases (is_blank line)) [
    | inl b ↦ rw b goes_on
    | inr b ↦ go (api.parse line) refl b
  ]
    where
      of_handled :
          (msg id : J) (r : Outcome (Unit {0}) × Server J)
          → api.parse line ≡ returned msg
          → api.at msg (text "id") ≡ returned id
          → Handled api msg id s r
          → RoundEnds api line s r
      of_handled msg id r p q (handled effect) = goes_on
      of_handled msg id r p q (unreported what w thrown e) =
          breaks (of_message msg id what p q thrown e)

      of_silent :
          {s' : Server J} (r : Outcome (Unit {0}) × Server J)
          → r ≡ (returned tt, s')
          → RoundEnds api line s r
      of_silent r e = rw e goes_on

      go :
          (o : Outcome J)
          → api.parse line ≡ o
          → is_blank line ≡ false
          → RoundEnds api line s (handle_line api line s)
      go (threw what) p b = rw (b, p) (parse_reported line what s p)
      go threw_unknown p b = absurd (ok.parse line p)
      go (returned msg) p b = elim (Bool-cases (api.contains msg (text "id"))) [
        | inr c ↦
            let (s', e, f, g) = notification_silent ok msg c line s b p in of_silent {s' = s'} _ e
        | inl c ↦
            let (id, q) = ok.at_contained msg (text "id") c in
            elim (Bool-cases (api.is_null id)) [
              | inr n ↦
                  let served =
                    request_served_once ok msg id (record { contained = c; read = q; present = n })
                      line s b p in
                  of_handled msg id _ p q served
              | inl n ↦
                  let (s', e) =
                    null_caught msg id (process_message api msg s) c q n
                      (null_message_std ok msg id c q n s) in
                  rw (b, p) (of_silent {s' = s'} _ e)
            ]
      ]

  -- No line, however malformed, and no failure of a handler lets an exception out of the loop but one:
  -- the loop returns, unless it meets a line that does not parse, or whose handler throws, and the
  -- report of that error cannot be dumped. Then the lines before it have been served, and the
  -- exception of that dump ends the loop. The JSON library throws only its own exceptions and reads
  -- the members it reports.
  pub serve_total : (lines : List Text) (s : Server J) → Ended api lines s (serve api lines s)
  unfolding serve
  serve_total [] s = returns
  serve_total (line ∷ lines) s = elim (Bool-cases s.running) [
    | inr stopped ↦ simp stopped returns
    | inl on ↦ simp on (
        round (handle_line api line s) refl (handle_line_total line s) on
          (λ s1. serve_total lines s1))
  ]
    where
      after :
          {s1 : Server J} (r : Outcome (Unit {0}) × Server J)
          → handle_line api line s ≡ (returned tt, s1)
          → s.running ≡ true
          → Ended api lines s1 r
          → Ended api (line ∷ lines) s r
      after r e on returns = returns
      after r e on (breaks_at before l rest p q u) =
          breaks_at (line ∷ before) l rest (ap (λ x. line ∷ x) p) (simp on (rw e q)) u

      round :
          (r : Outcome (Unit {0}) × Server J)
          → handle_line api line s ≡ r
          → RoundEnds api line s r
          → s.running ≡ true
          → ((s1 : Server J) → Ended api lines s1 (serve api lines s1))
          → Ended api (line ∷ lines) s (continue r.0 (λ _. serve api lines) r.1)
      round r e (goes_on {s' = s1}) on rest = after _ e on (rest s1)
      round r e (breaks u) on rest = breaks_at [] line lines refl refl u
