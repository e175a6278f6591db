-- ===== src/Supervisor/Texts.antt =====
-- The text handling of the supervisor: Python's white space, and the run identifiers.
use Prim.Native.Char.{Char, code}
use Prim.Native.String.{String.[], String.◌∷◌}
use writ_ai.Prelude.{
  ℕ, zero, suc, ◌+◌, ◌*◌, String, Bool, ◌&&◌, ◌||◌, List, [], ◌∷◌, Option, none, some, leb, eqb,
  ◌==◌, if◌then◌else◌,
}
use writ_ai.Prelude.Decimal.{append_text, decimal}

-- Unicode data that Python's text methods use.
pub record Unicode : Type 0 where
  pub casefold : String → String
  pub upper : String → String
  pub decimal_value : Char → Option ℕ

-- `str.isspace` of one character.
abbrev pub is_space : ℕ → Bool
is_space n =
    (leb 9 n && leb n 13)
    || (leb 28 n && leb n 32)
    || eqb n 133
    || eqb n 160
    || eqb n 5760
    || (leb 8192 n && leb n 8202)
    || eqb n 8232
    || eqb n 8233
    || eqb n 8239
    || eqb n 8287
    || eqb n 12288

-- `s.replace("\x00", "")`
unfoldable pub drop_nulls : String → String
drop_nulls [] = []
drop_nulls (c ∷ s) = if eqb (code c) 0 then drop_nulls s else c ∷ drop_nulls s

-- A word, unless it is empty, in front of others.
abbrev pub push_word : String → List String → List String
push_word [] ws = ws
push_word (c ∷ w) ws = (c ∷ w) ∷ ws

-- The word that the text starts with, and the other words.
unfoldable pub first_word : String → String × List String
first_word [] = ("", [])
first_word (c ∷ s) =
    let (w, ws) = first_word s in if is_space (code c) then ("", push_word w ws) else (c ∷ w, ws)

-- `s.split()`
unfoldable pub split_words : String → List String
unfolding first_word
split_words s = let (w, ws) = first_word s in push_word w ws

-- `" ".join(ws)`
unfoldable pub join_words : List String → String
join_words [] = ""
join_words (w ∷ []) = w
join_words (w ∷ v ∷ ws) = append_text w (" " ∷ join_words (v ∷ ws))

-- `s.rstrip()`
unfoldable pub strip_right : String → String
strip_right [] = []
strip_right (c ∷ s) = elim (strip_right s) [
  | [] ↦ if is_space (code c) then [] else c ∷ []
  | d ∷ t ↦ c ∷ d ∷ t
]

unfoldable pub strip_left : String → String
strip_left [] = []
strip_left (c ∷ s) = if is_space (code c) then strip_left s else c ∷ s

-- `s.strip()`
unfoldable pub strip : String → String
unfolding strip_left strip_right
strip s = strip_right (strip_left s)

-- `s[:n]`
unfoldable pub take_text : ℕ → String → String
take_text zero s = []
take_text (suc n) [] = []
take_text (suc n) (c ∷ s) = c ∷ take_text n s

-- `s.replace("_", "-")`
unfoldable pub dash_underscores : String → String
dash_underscores [] = []
dash_underscores (c ∷ s) = (if eqb (code c) 95 then "-" else c) ∷ dash_underscores s

-- The rest of a text behind a prefix.
unfoldable pub behind : String → String → Option String
behind [] s = some s
behind (c ∷ p) [] = none
behind (c ∷ p) (d ∷ s) = if eqb (code c) (code d) then behind p s else none

-- `s.removesuffix("-RUN")`
unfoldable pub remove_run_suffix : String → String
remove_run_suffix [] = []
remove_run_suffix (c ∷ s) = if (c ∷ s) == "-RUN" then [] else c ∷ remove_run_suffix s

-- `_initial_run_id`
unfoldable pub initial_run_id : String → String → String
unfolding remove_run_suffix
initial_run_id supervisor_run_id task_id =
    append_text (remove_run_suffix supervisor_run_id) ("-" ∷ append_text task_id "-RUN-1")

module _ (unicode : Unicode) where
  -- `int(…)` of digits behind a number, if there are only digits.
  unfoldable pub read_digits : ℕ → String → Option ℕ
  read_digits n [] = some n
  read_digits n (c ∷ s) = elim (unicode.decimal_value c) [
    | none ↦ none
    | some d ↦ read_digits (n * 10 + d) s
  ]

  -- `[1-9]\d*`
  unfoldable pub read_revision : String → Option ℕ
  unfolding read_digits
  read_revision [] = none
  read_revision (c ∷ s) = if leb 49 (code c) && leb (code c) 57 then read_digits 0 (c ∷ s) else none

  -- The prefix up to `-RUN-`, which has more characters than that and no line break before it, and the
  -- revision behind it.
  unfoldable pub split_run_id : String → Option (String × ℕ)
  unfolding read_revision behind
  split_run_id [] = none
  split_run_id (c ∷ s) =
      let later = split_run_id s in
      if eqb (code c) 10 then none else elim (behind "-RUN-" s) [
        | none ↦ elim later [ none ↦ none | some (prefix, n) ↦ some (c ∷ prefix, n) ]
        | some rest ↦ elim (read_revision rest) [
          | none ↦ elim later [ none ↦ none | some (prefix, n) ↦ some (c ∷ prefix, n) ]
          | some n ↦ some (c ∷ "-RUN-", n)
        ]
      ]

  -- `_replacement_run_id`
  unfoldable pub replacement_run_id : String → String
  unfolding split_run_id
  replacement_run_id run_id = elim (split_run_id run_id) [
    | none ↦ append_text run_id "-REDIRECT-1"
    | some (prefix, revision) ↦ append_text prefix (decimal (revision + 1))
  ]
