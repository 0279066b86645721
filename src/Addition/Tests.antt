-- ===== src/Addition/Tests.antt =====
-- The forms on concrete input, and the theorems about them.
use marc_comparator.Base.{
  ◌≡◌, refl, false, none, List, [], ◌∷◌, All, filter, nat_eqb, if◌then◌else◌,
}
use marc_comparator.Base.Text.{Text, lit, text_eqb}
use marc_comparator.Base.Sets.{includes}
use marc_comparator.Addition.{
  sync, Form, sync_records, split_lines, system_numbers, request_of, is_valid, is_base_locked,
  is_submit_disabled, submitted, step,
}
use marc_comparator.Addition.Batch.{IsSent, step-IsSent, IsBlank}

runs : Unit {0}
unfolding step is_submit_disabled is_valid request_of system_numbers split_lines is_base_locked
    includes text_eqb filter
runs = tt

abbrev same_text : Text → Text
same_text t = t

abbrev sync_form : Form
sync_form = record { kind = sync; base = lit "MZK01"; input = []; is_pending = false }

abbrev bases : List Text
bases = lit "MZK01" ∷ []

abbrev locks : List Text
locks = lit "catalog_sync_MZK03" ∷ []

sends_sync :
    (step same_text bases locks submitted sync_form).1 ≡ sync_records (lit "MZK01") none ∷ []
unfolding runs
sends_sync = refl

step-IsSent_example : All (IsSent locks) (step same_text bases locks submitted sync_form).1
step-IsSent_example = step-IsSent same_text bases locks submitted sync_form

-- A text of one space, and `trim` for spaces.
abbrev drop_spaces : Text → Text
drop_spaces [] = []
drop_spaces (c ∷ cs) = let rest = drop_spaces cs in if nat_eqb c 32 then rest else c ∷ cs

abbrev space : Text
space = lit " "

blank : IsBlank drop_spaces space
unfolding runs
blank = (refl, tt)
