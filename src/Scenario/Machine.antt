-- ===== src/Scenario/Machine.antt =====
-- JSON values in postfix notation: a number for each step of a machine with a stack.
use cachau.Scenario.Characters.{character, character-code}
use Prim.Native.Char.{Char, code}
use cachau.Disk.Json.{
  Json, null, boolean, integer, real, text, array, object, Items, no_items, item, Members,
  no_members, member,
}
use cachau.Prelude.{
  ℕ, ◌+◌, ◌*◌, ◌/◌, ◌%◌, ◌-◌, String, List, [], ◌∷◌, ◌++◌, true, false, Option, some, ◌==◌, ◌<◌,
  ◌≡◌, refl, ap, ◌∙◌, arith, if◌then◌else◌,
}
use mathlib.Core.List.{append_assoc}

-- One step: the kind below 16, and a number.
abbrev pub token : ℕ → ℕ → ℕ
token kind n = 16 * (n + 1) + kind

-- A finished value, or one that is being built.
abbrev prepend : Option Char → List Json → List Json
prepend (some c) (text s ∷ stack) = text (String.◌∷◌ c s) ∷ stack
prepend _ stack = stack

abbrev into_array : List Json → List Json
into_array (value ∷ (array items ∷ stack)) = array (item value items) ∷ stack
into_array stack = stack

abbrev into_object : List Json → List Json
into_object (value ∷ (text name ∷ (object fields ∷ stack))) =
    object (member name value fields) ∷ stack
into_object stack = stack

unfoldable pub step : ℕ → ℕ → List Json → List Json
unfolding character
step kind n stack =
    if kind == 0
    then null ∷ stack
    else if kind == 1
    then boolean (n == 1) ∷ stack
    else if kind == 2
    then integer n ∷ stack
    else if kind == 3
    then real n ∷ stack
    else if kind == 4
    then text String.[] ∷ stack
    else if kind == 5
    then prepend (character n) stack
    else if kind == 6
    then array no_items ∷ stack
    else if kind == 7
    then into_array stack
    else if kind == 8
    then object no_members ∷ stack
    else into_object stack

unfoldable pub execute : List ℕ → List Json → List Json
unfolding step
execute [] stack = stack
execute (t ∷ tokens) stack = execute tokens (step (t % 16) (t / 16 - 1) stack)

unfoldable pub spell : String → List ℕ
spell String.[] = token 4 0 ∷ []
spell (String.◌∷◌ c s) = spell s ++ (token 5 (code c) ∷ [])

unfoldable mutual
  unfolding spell

  pub postfix : Json → List ℕ
  postfix null = token 0 0 ∷ []
  postfix (boolean true) = token 1 1 ∷ []
  postfix (boolean false) = token 1 0 ∷ []
  postfix (integer n) = token 2 n ∷ []
  postfix (real n) = token 3 n ∷ []
  postfix (text s) = spell s
  postfix (array items) = postfix_items items
  postfix (object fields) = postfix_members fields

  pub postfix_items : Items → List ℕ
  postfix_items no_items = token 6 0 ∷ []
  postfix_items (item value items) = postfix_items items ++ (postfix value ++ (token 7 0 ∷ []))

  pub postfix_members : Members → List ℕ
  postfix_members no_members = token 8 0 ∷ []
  postfix_members (member name value fields) =
      postfix_members fields ++ (spell name ++ (postfix value ++ (token 9 0 ∷ [])))

execute-token :
    (kind n : ℕ) (rest : List ℕ) (stack : List Json)
    → kind < 16
    → execute (token kind n ∷ rest) stack ≡ execute rest (step kind n stack)
unfolding execute
execute-token kind n rest stack h =
    let e : token kind n % 16 ≡ kind = omega arith in
    let f : token kind n / 16 - 1 ≡ n = omega arith in
    ap (λ k. execute rest (step k (token kind n / 16 - 1) stack)) e
    ∙ ap (λ m. execute rest (step kind m stack)) f

step-character :
    (c : Char) (s : String) (stack : List Json)
    → step 5 (code c) (text s ∷ stack) ≡ text (String.◌∷◌ c s) ∷ stack
unfolding step
step-character c s stack = rw (character-code c) refl

execute-spell :
    (s : String) (rest : List ℕ) (stack : List Json)
    → execute (spell s ++ rest) stack ≡ execute rest (text s ∷ stack)
unfolding spell
execute-spell String.[] rest stack =
    execute-token 4 0 rest stack (omega arith) ∙ (unfold step in refl)
execute-spell (String.◌∷◌ c s) rest stack =
    ap (λ t. execute t stack) (append_assoc (spell s) (token 5 (code c) ∷ []) rest)
    ∙ execute-spell s (token 5 (code c) ∷ rest) stack
    ∙ execute-token 5 (code c) rest (text s ∷ stack) (omega arith)
    ∙ ap (execute rest) (step-character c s stack)

-- The tokens of a value put it on the stack.
mutual
  unfolding postfix postfix_items postfix_members step

  pub execute-postfix :
      (j : Json) (rest : List ℕ) (stack : List Json)
      → execute (postfix j ++ rest) stack ≡ execute rest (j ∷ stack)
  execute-postfix null rest stack = execute-token 0 0 rest stack (omega arith)
  execute-postfix (boolean true) rest stack = execute-token 1 1 rest stack (omega arith)
  execute-postfix (boolean false) rest stack = execute-token 1 0 rest stack (omega arith)
  execute-postfix (integer n) rest stack = execute-token 2 n rest stack (omega arith)
  execute-postfix (real n) rest stack = execute-token 3 n rest stack (omega arith)
  execute-postfix (text s) rest stack = execute-spell s rest stack
  execute-postfix (array items) rest stack = execute-items items rest stack
  execute-postfix (object fields) rest stack = execute-members fields rest stack

  execute-items :
      (items : Items) (rest : List ℕ) (stack : List Json)
      → execute (postfix_items items ++ rest) stack ≡ execute rest (array items ∷ stack)
  execute-items no_items rest stack = execute-token 6 0 rest stack (omega arith)
  execute-items (item value items) rest stack =
      ap (λ t. execute t stack)
        (append_assoc (postfix_items items) (postfix value ++ (token 7 0 ∷ [])) rest)
      ∙ execute-items items ((postfix value ++ (token 7 0 ∷ [])) ++ rest) stack
      ∙ ap (λ t. execute t (array items ∷ stack))
          (append_assoc (postfix value) (token 7 0 ∷ []) rest)
      ∙ execute-postfix value (token 7 0 ∷ rest) (array items ∷ stack)
      ∙ execute-token 7 0 rest (value ∷ array items ∷ stack) (omega arith)

  execute-members :
      (fields : Members) (rest : List ℕ) (stack : List Json)
      → execute (postfix_members fields ++ rest) stack ≡ execute rest (object fields ∷ stack)
  execute-members no_members rest stack = execute-token 8 0 rest stack (omega arith)
  execute-members (member name value fields) rest stack =
      ap (λ t. execute t stack)
        (append_assoc (postfix_members fields) (spell name ++ (postfix value ++ (token 9 0 ∷ [])))
          rest)
      ∙ execute-members fields ((spell name ++ (postfix value ++ (token 9 0 ∷ []))) ++ rest) stack
      ∙ ap (λ t. execute t (object fields ∷ stack))
          (append_assoc (spell name) (postfix value ++ (token 9 0 ∷ [])) rest)
      ∙ execute-spell name ((postfix value ++ (token 9 0 ∷ [])) ++ rest) (object fields ∷ stack)
      ∙ ap (λ t. execute t (text name ∷ object fields ∷ stack))
          (append_assoc (postfix value) (token 9 0 ∷ []) rest)
      ∙ execute-postfix value (token 9 0 ∷ rest) (text name ∷ object fields ∷ stack)
      ∙ execute-token 9 0 rest (value ∷ text name ∷ object fields ∷ stack) (omega arith)
