-- ===== src/Client/Summary.antt =====
-- `DocumentSummary` of src/client.rs: the line that stands for a document in logs.
use anml_client_rust.Common.{
  ℕ, ◌+◌, Bool, true, false, Option, none, some, List, [], ◌++◌, ◌==◌, ltb, if◌then◌else◌, length,
  find, retain, decimal, Text, codes,
}
use anml_client_rust.Document.{
  AnmlDocument, AnmlFlow, AnmlState, AnmlStatus, AnmlStep, current, completed, skipped,
}

abbrev pub text_or : Option Text → Text → Text
text_or none d = d
text_or (some s) d = s

abbrev pub length_or_zero {ℓ} : {A : Type ℓ} → Option (List A) → ℕ
length_or_zero none = 0
length_or_zero (some xs) = length xs

abbrev pub title_of : AnmlDocument → Text
title_of doc = elim doc.head [
  | none ↦ codes "untitled"
  | some h ↦ text_or h.title (codes "untitled")
]

abbrev pub version_part : Option Text → Text
version_part none = []
version_part (some v) = codes " v" ++ v

abbrev pub ask_count : AnmlDocument → ℕ
ask_count doc =
    (elim doc.knowledge [ none ↦ 0 | some k ↦ length_or_zero k.asks ]) + length_or_zero doc.asks

abbrev pub action_count : AnmlDocument → ℕ
action_count doc = elim doc.interact [ none ↦ 0 | some i ↦ length i.actions ]

unfoldable pub count_text : ℕ → Text → Text
count_text n noun = decimal n ++ codes " " ++ noun ++ (if n == 1 then [] else codes "s")

-- What stands behind the first bar, if there is something to count.
unfoldable pub counts_part : ℕ → ℕ → Text
unfolding count_text
counts_part asks actions =
    if ltb 0 asks
    then if ltb 0 actions
      then codes " | "
        ++ count_text asks (codes "ask")
        ++ codes ", "
        ++ count_text actions (codes "action")
      else codes " | " ++ count_text asks (codes "ask")
    else if ltb 0 actions
    then codes " | " ++ count_text actions (codes "action")
    else []

abbrev pub is_current : AnmlStep → Bool
is_current s = elim s.status [ some current ↦ true | _ ↦ false ]

abbrev pub is_done : AnmlStep → Bool
is_done s = elim s.status [ some completed ↦ true | some skipped ↦ true | _ ↦ false ]

abbrev pub step_id : Option AnmlStep → Text
step_id none = codes "?"
step_id (some s) = s.id

abbrev pub shown_step : AnmlState → AnmlFlow → Text
shown_step state flow = elim state.context [
  | some c ↦ c.step
  | none ↦ step_id (find is_current flow.steps)
]

-- The number that the summary gives the present step.
unfoldable pub shown_number : AnmlFlow → ℕ
shown_number flow = length (retain is_done flow.steps) + 1

unfoldable pub flow_part : Option AnmlState → Text
unfolding shown_number
flow_part none = []
flow_part (some state) = elim state.flow [
  | none ↦ []
  | some flow ↦
      codes " | flow@"
      ++ shown_step state flow
      ++ codes " ("
      ++ decimal (shown_number flow)
      ++ codes "/"
      ++ decimal (length flow.steps)
      ++ codes ")"
]

abbrev pub message_part : Option Text → Text
message_part none = []
message_part (some m) = codes " " ++ m

abbrev pub status_part : Option AnmlStatus → Text
status_part none = []
status_part (some s) = codes " | " ++ s.result ++ message_part s.message

unfoldable pub summary : AnmlDocument → Text
unfolding counts_part flow_part
summary doc =
    codes "ANML["
    ++ title_of doc
    ++ codes "]"
    ++ version_part doc.version
    ++ counts_part (ask_count doc) (action_count doc)
    ++ flow_part doc.state
    ++ status_part doc.status
