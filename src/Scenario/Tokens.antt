-- ===== src/Scenario/Tokens.antt =====
-- A token's memo where two objects had one `id`, and a diagnosis of a slow read.
use cachau.Prelude.{ℕ, ◌%◌, String, true, Option, none, some, ◌==◌, ◌≡◌, if◌then◌else◌}
use cachau.Tokens.{Memo, start, array_token, array_token-Reachable, array_token-digest_of}

abbrev address : ℕ → ℕ
address object = object % 2

abbrev content : ℕ → Option String
content object = if object == 1 then some "one" else if object == 3 then some "three" else none

-- The memo after a token of the object 1.
abbrev memo : Memo
memo = (array_token address content (λ object. true) (λ object. true) 1 7 (λ key. none)).1

-- Object 1 died, and object 3 has its `id`.
array_token-digest_of_example :
    (array_token address content (λ object. true) (λ object. object == 3) 3 8 memo).0 ≡ some "three"
array_token-digest_of_example =
    array_token-digest_of address content (λ object. true) memo (λ object. object == 3) 3 8
      (array_token-Reachable address content (λ object. true) (λ object. true) 1 7 (λ key. none)
        start)
