-- ===== src/CommandLine/Help.antt =====
-- `CommandLine::help` of common/command_line.h, as the text that it prints.
use mm_mem.Base.{List, [], ◌∷◌, ◌++◌, if◌then◌else◌}
use mm_mem.Text.{Text, codes, text_eq}
use mm_mem.CommandLine.{flag, integer, OptionSpec, CommandLine}

unfoldable pub help_option : OptionSpec → Text
help_option spec =
    codes "  --"
    ++ spec.name
    ++ (elim spec.alias [ [] ↦ [] | _ ∷ _ ↦ codes ", -" ++ spec.alias ])
    ++ (elim spec.kind [ flag ↦ [] | integer type ↦ codes " VALUE" ])
    ++ codes "\n      "
    ++ spec.description
    ++ codes "\n"

unfoldable pub help_loop : (previous_group : Text) → List OptionSpec → Text
unfolding help_option text_eq
help_loop previous_group [] = []
help_loop previous_group (spec ∷ rest) =
    (if text_eq spec.group previous_group then [] else codes "\n" ++ spec.group ++ codes ":\n")
    ++ help_option spec
    ++ help_loop spec.group rest

unfoldable pub help : CommandLine → Text
unfolding help_loop
help c = c.title ++ codes "\n" ++ help_loop [] c.options
