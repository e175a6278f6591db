-- ===== src/Sessions/Markers.antt =====
-- `.writai/task`, `.writai/attach` and the task id in a branch name.
use Prim.Native.Char.{Char, code}
use Prim.Native.String.{count, String.[], String.◌∷◌}
use writ_ai.Prelude.{
  ℕ, String, Bool, true, false, not, ◌&&◌, ◌||◌, ◌==◌, List, [], ◌∷◌, Option, none, some, leb, ltb,
  eqb, filter, map, if◌then◌else◌,
}
use writ_ai.Supervisor.Texts.{behind, strip}
use writ_ai.Sessions.{AttachFileResult}

-- What reading a path finds: nothing there, an error of the system, or a file by its kind, its size
-- and its text, `none` if it does not decode.
pub data Found : Type 0 where
  missing unreadable symbolic_link no_regular_file : Found
  file : ℕ → Option String → Found

-- A character that ends a line in `str.splitlines`.
abbrev pub ends_line : ℕ → Bool
ends_line n =
    (leb 10 n && leb n 13) || (leb 28 n && leb n 30) || eqb n 133 || eqb n 8232 || eqb n 8233

abbrev pub onto_first : Char → List String → List String
onto_first c [] = (c ∷ []) ∷ []
onto_first c (line ∷ lines) = (c ∷ line) ∷ lines

-- The lines of a text. An end of line of two characters leaves an empty one, which the callers drop.
unfoldable pub split_lines : String → List String
split_lines [] = []
split_lines (c ∷ s) =
    let rest = split_lines s in if ends_line (code c) then [] ∷ rest else onto_first c rest

-- `[line.strip() for line in content.splitlines() if line.strip()]`
unfoldable pub stripped_lines : String → List String
unfolding split_lines strip
stripped_lines content = filter (λ line. not (line == "")) (map strip (split_lines content))

abbrev pub max_file_bytes : ℕ
max_file_bytes = 512

-- The only line, of at most 255 characters.
abbrev pub only_line : List String → Option String
only_line (line ∷ []) = if ltb 255 (count line) then none else some line
only_line _ = none

-- `_read_task_file`
unfoldable pub read_task_file : Found → Option String
unfolding stripped_lines
read_task_file (file size (some content)) =
    if ltb max_file_bytes size then none else only_line (stripped_lines content)
read_task_file _ = none

abbrev pub marker_refused : String → AttachFileResult
marker_refused detail = record { present = true; assignment_id = none; detail = some detail }

abbrev pub only_id : List String → AttachFileResult
only_id (line ∷ []) =
    if ltb 255 (count line)
    then marker_refused ".writai/attach contains an invalid assignment ID."
    else record { present = true; assignment_id = some line; detail = none }
only_id _ = marker_refused ".writai/attach must contain exactly one assignment ID."

-- `_read_attach_file`
unfoldable pub read_attach_file : Found → AttachFileResult
unfolding stripped_lines
read_attach_file missing = record { present = false; assignment_id = none; detail = none }
read_attach_file unreadable = marker_refused ".writai/attach could not be read safely."
read_attach_file symbolic_link = marker_refused ".writai/attach must not be a symbolic link."
read_attach_file no_regular_file = marker_refused ".writai/attach must be a regular file."
read_attach_file (file size content) =
    if ltb max_file_bytes size
    then marker_refused ".writai/attach exceeds the safe size limit."
    else elim content [
      | none ↦ marker_refused ".writai/attach could not be read safely."
      | some text ↦ only_id (stripped_lines text)
    ]

-- `[A-Za-z0-9]`
abbrev pub is_alphanumeric : ℕ → Bool
is_alphanumeric n = (leb 48 n && leb n 57) || (leb 65 n && leb n 90) || (leb 97 n && leb n 122)

-- Nothing, or a character that is not alphanumeric, comes next.
abbrev pub ends_word : Option String → Bool
ends_word none = false
ends_word (some []) = true
ends_word (some (c ∷ s)) = not (is_alphanumeric (code c))

-- The search for the task id, behind a character that is alphanumeric or not.
unfoldable pub mentions : Bool → String → String → Bool
unfolding behind
mentions inside task_id [] = not inside && ends_word (behind task_id [])
mentions inside task_id (c ∷ s) =
    (not inside && ends_word (behind task_id (c ∷ s)))
    || mentions (is_alphanumeric (code c)) task_id s

-- `_branch_mentions_task`
unfoldable pub branch_mentions_task : String → String → Bool
unfolding mentions
branch_mentions_task branch task_id = not (branch == "") && mentions false task_id branch
