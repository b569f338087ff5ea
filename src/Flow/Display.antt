-- ===== src/Flow/Display.antt =====
-- The texts that stand for a navigator and for a step in logs, in src/flow/mod.rs, and the accessors.
use anml_client_rust.Common.{
  ℕ, ◌+◌, Option, none, some, List, [], ◌∷◌, ◌++◌, if◌then◌else◌, Text, codes, decimal, map, length,
  join_with,
}
use anml_client_rust.Document.{AnmlDocument}
use anml_client_rust.Flow.{StepInfo, HistoryEntry, FlowNavigator, current_step}
use anml_client_rust.Flow.Update.{status_text}

abbrev pub all_steps : FlowNavigator → List StepInfo
all_steps nav = nav.steps

abbrev pub history_of : FlowNavigator → List HistoryEntry
history_of nav = nav.history

abbrev pub document_of : FlowNavigator → AnmlDocument
document_of nav = nav.document

abbrev pub total_steps : FlowNavigator → ℕ
total_steps nav = length nav.steps

abbrev pub current_position : FlowNavigator → ℕ
current_position nav = nav.current_index + 1

-- A space, a rightwards arrow in UTF-8, and a space.
abbrev arrow : Text
arrow = 32 ∷ 226 ∷ 134 ∷ 146 ∷ 32 ∷ []

abbrev pub id_or_mark : Option StepInfo → Text
id_or_mark none = codes "?"
id_or_mark (some s) = s.id

unfoldable pub show_navigator : FlowNavigator → Text
show_navigator nav =
    codes "Flow["
    ++ join_with arrow (map (λ s. s.id) nav.steps)
    ++ codes "] @ "
    ++ id_or_mark (current_step nav)
    ++ codes " ("
    ++ decimal (current_position nav)
    ++ codes "/"
    ++ decimal (total_steps nav)
    ++ codes ")"

abbrev pub label_part : Option Text → Text
label_part none = []
label_part (some label) = codes " \"" ++ label ++ codes "\""

abbrev pub condition_part : Option Text → Text
condition_part none = []
condition_part (some cond) = codes " condition=\"" ++ cond ++ codes "\""

unfoldable pub show_step : StepInfo → Text
show_step s =
    codes "Step["
    ++ s.id
    ++ codes "]"
    ++ label_part s.label
    ++ codes " ("
    ++ status_text s.status
    ++ codes ")"
    ++ (if s.required then codes " required" else [])
    ++ condition_part s.condition
