-- ===== src/Ai/Tests.antt =====
-- Runs of mobile/src/ai/: a pinned report among calls, a report saved into the empty table, and a
-- text section with another one in it.
use foodler.Common.{
  ℕ, ◌+◌, ◌++◌, ◌<◌, length, subst, ap, ◌≡◌, refl, true, Option, none, some, List, [], ◌∷◌, arith,
  All,
}
use foodler.Text.{Text, codes, text_eq}
use foodler.Json.{Json, Items, string, array, object, field, end, nil, cons, elements, lookup_field}
use foodler.Ai.Types.{AiReport, AiReportSnapshot, AiResult, AiSection, analysis, recipe}
use foodler.Ai.Sections.{section_text, part_of, both, parse_server_sections}
use foodler.Ai.Sections.Ends.{IsShortening, sections_of, parse_server_sections-recursion}
use foodler.Ai.Reports.{
  ReportCall, saves, toggles, deletes, inits, call, new_report, call_all, save_ai_report,
}
use foodler.Ai.Reports.Pinned.{IsKept, pinned-IsKept}
use foodler.Ai.Reports.Refined.{IsAllowed, meant, stored, call_all-refines}
use foodler.Ai.Reports.Limit.{IsSaved, save_ai_report-IsSaved}

abbrev snapshot : AiReportSnapshot
snapshot = record {
  receipt_count = 1;
  period_from = none;
  period_to = none;
  total_spent = none;
  receipt_ids = codes "r1" ∷ [];
}

abbrev answer : Text → AiResult
answer id = record { id = id; action = recipe; title = codes "t"; summary = []; sections = [] }

abbrev pinned_report : AiReport
pinned_report = record {
  id = codes "p";
  action = analysis;
  created_at = 5;
  snapshot = snapshot;
  response = answer (codes "p");
  pinned = true;
}

abbrev month_later : ℕ
month_later = 3000000000

abbrev calls : List ReportCall
calls =
    saves month_later (codes "f") recipe snapshot (answer (codes "b"))
    ∷ inits (month_later + 1)
    ∷ toggles (codes "b") true
    ∷ deletes (codes "b")
    ∷ []

pinned-IsKept_example : IsKept pinned_report (call_all calls (pinned_report ∷ []))
unfolding text_eq
pinned-IsKept_example =
    pinned-IsKept calls pinned_report (pinned_report ∷ []) (tt, (tt, (refl, (refl, tt))))
      (refl, refl)

abbrev before : List ReportCall
before = saves 7 (codes "f") recipe snapshot (answer []) ∷ []

save_ai_report-IsSaved_example :
    (after : List AiReport) × ((save_ai_report 9
          (codes "g")
          recipe
          snapshot
          (answer (codes "b"))
          (call_all before [])
        ≡ some after)
      × IsSaved
          (new_report 9 (codes "g") recipe snapshot (answer (codes "b")))
          (call_all before [])
          after)
unfolding call text_eq
save_ai_report-IsSaved_example =
    save_ai_report-IsSaved before 9 (codes "g") recipe snapshot (answer (codes "b")) refl
      (omega arith, tt)

-- Reads a text as a section that holds all but the first character of it.
abbrev peel : Text → Option Json
peel [] = none
peel (c ∷ t) = some (
    array (
      cons
        (object
          (field (codes "type") (string (codes "text")) (field (codes "text") (string t) end)))
        nil))

abbrev items_of : Option Json → Items
items_of (some (array items)) = items
items_of _ = nil

peel-IsShortening : IsShortening peel
unfolding elements lookup_field text_eq
peel-IsShortening [] items h = absurd cc
peel-IsShortening (c ∷ t) items h =
    subst (λ is. All (λ e. length (section_text e) < length (c ∷ t)) (elements is)) (ap items_of h)
      (omega arith, tt)

abbrev wrapped : Json
wrapped =
    object (
      field (codes "type") (string (codes "text")) (field (codes "text") (string (codes "[x")) end))

abbrev nothing : Json → Text
nothing v = []

parse_server_sections-recursion_example :
    ((result : List AiSection) × (parse_server_sections peel nothing nothing (wrapped ∷ [])
        ≡ some result))
    × ((s : Json)
        → parse_server_sections peel nothing nothing (s ∷ wrapped ∷ [])
          ≡ both
              (sections_of peel nothing nothing (part_of peel nothing nothing s))
              (parse_server_sections peel nothing nothing (wrapped ∷ [])))
parse_server_sections-recursion_example =
    parse_server_sections-recursion peel nothing nothing peel-IsShortening (wrapped ∷ [])

call_all-refines_example :
    IsAllowed
      (meant (deletes (codes "b")) (stored (call_all before [])) (codes "f"))
      (stored (call_all (before ++ deletes (codes "b") ∷ []) []) (codes "f"))
call_all-refines_example = call_all-refines before (deletes (codes "b")) (codes "f")
