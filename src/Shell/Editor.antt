-- ===== src/Shell/Editor.antt =====
-- The line editor in `main` of src/user/apps/shell/main.c. An array of bytes is a function of the
-- index, and the bytes that `getchar` returns are a list. What is printed is not modelled.
pub mod Text
pub mod Moves
pub mod Shown
pub mod Bounds
pub mod Draft
pub mod Typed
use aqua_core.Prelude.{
  ℕ, zero, suc, ◌+◌, ◌-◌, Bool, true, false, ◌&&◌, ◌||◌, Option, none, some, List, [], ◌∷◌, ltb,
  leb, ◌==◌, if◌then◌else◌, update, ℤ, pos, negsuc, minus_one, length, take,
}
use aqua_core.Commonlibs.Buffer.{memcpy}
use aqua_core.Shell.{cmdline_max}
use aqua_core.Shell.History.{History, history_get}
use aqua_core.Shell.Complete.{Line, complete_app_name}
use aqua_core.Shell.Arrays.{move_up, move_down, store, str_len}

-- The variables of the loop. A `cmdline` and its `len` and `cursor` are a `Line`.
pub record Editor : Type 0 where
  pub line : Line
  pub draft : ℕ → ℕ
  pub draft_len : ℕ
  pub history_cursor : ℤ

-- What the bytes of one round of the loop stand for.
pub data Key : Type 0 where
  enter up down right left delete tab erase ignored : Key
  char : ℕ → Key

-- The last byte of an escape sequence, or the byte before `~`.
abbrev pub arrow : ℕ → Key
arrow c =
    if c == b'A'
    then up
    else if c == b'B'
    then down
    else if c == b'C'
    then right
    else if c == b'D'
    then left
    else ignored

-- What follows ESC.
unfoldable pub read_escape : List ℕ → Option (Key × List ℕ)
read_escape [] = none
read_escape (c1 ∷ []) = none
read_escape (c1 ∷ c2 ∷ []) =
    if c1 == b'[' && c2 == b'3' then none else some ((if c1 == b'[' then arrow c2 else ignored), [])
read_escape (c1 ∷ c2 ∷ c3 ∷ cs) =
    if c1 == b'[' && c2 == b'3'
    then some ((if c3 == b'~' then delete else ignored), cs)
    else some ((if c1 == b'[' then arrow c2 else ignored), c3 ∷ cs)

-- The calls of `getchar` in a round of the loop: none where they wait for more input.
unfoldable pub read_key : List ℕ → Option (Key × List ℕ)
read_key [] = none
read_key (c ∷ cs) =
    if c == 13 || c == 10
    then some (enter, cs)
    else if c == 27
    then read_escape cs
    else if c == 9
    then some (tab, cs)
    else if c == 8 || c == 127
    then some (erase, cs)
    else some (char c, cs)

-- What a round of the loop does: it goes on, ends with the line's array, or prompts again.
pub data Outcome : Type 0 where
  editing : Editor → Outcome
  entered : (ℕ → ℕ) → Outcome
  too_long : Outcome

-- A line in an array where there was another one, with the cursor at its end.
abbrev replaced : Editor → (ℕ → ℕ) → ℕ → Editor
replaced e cmdline len = record e { line = record { cmdline = cmdline; len = len; cursor = len } }

-- The array after a `history_get` into it; one that fails leaves it alone.
abbrev pub fetched : (ℕ → ℕ) → Option (List ℕ) → ℕ → ℕ
fetched cmdline none = cmdline
fetched cmdline (some s) = store cmdline 0 s

-- `history_get` on the command line, and what follows.
unfoldable pub show_entry : History → Editor → ℤ → Editor
show_entry h e i =
    let cmdline = fetched e.line.cmdline (history_get h i cmdline_max) in
    record (replaced e cmdline (str_len cmdline cmdline_max 0)) { history_cursor = i }

-- The arrow up, with the history not empty.
unfoldable pub older : History → Editor → ℤ → Editor
older h e (negsuc n) =
    show_entry h
      (record e {
        draft = update (memcpy e.draft 0 e.line.cmdline 0 e.line.len) e.line.len 0;
        draft_len = e.line.len;
      })
      (pos (h.count - 1))
older h e (pos i) = show_entry h e (pos (i - 1))

-- The arrow down, with the history not empty.
unfoldable pub newer : History → Editor → ℤ → Editor
newer h e (negsuc n) = e
newer h e (pos i) =
    if ltb i (h.count - 1)
    then show_entry h e (pos (i + 1))
    else record (replaced e (update (memcpy e.line.cmdline 0 e.draft 0 e.draft_len) e.draft_len 0)
        e.draft_len) { history_cursor = minus_one }

unfoldable pub cursor_right : Line → Line
cursor_right l = if ltb l.cursor l.len then record l { cursor = l.cursor + 1 } else l

unfoldable pub cursor_left : Line → Line
cursor_left l = if l.cursor == 0 then l else record l { cursor = l.cursor - 1 }

-- The loops that close or open a gap, with what follows them.
unfoldable pub delete_char : Line → Line
delete_char l =
    if ltb l.cursor l.len
    then record l {
      cmdline = update (move_down l.cmdline l.cursor 1 (l.len - 1 - l.cursor)) (l.len - 1) 0;
      len = l.len - 1;
    }
    else l

unfoldable pub erase_char : Line → Line
erase_char l = if l.cursor == 0 then l else record {
  cmdline =
      update (move_down l.cmdline (l.cursor - 1) 1 (l.len - 1 - (l.cursor - 1))) (l.len - 1) 0;
  len = l.len - 1;
  cursor = l.cursor - 1;
}

unfoldable pub insert_char : Line → ℕ → Line
insert_char l c =
    if l.cursor == l.len
    then record { cmdline = update l.cmdline l.len c; len = l.len + 1; cursor = l.len + 1 }
    else record {
      cmdline = update (move_up l.cmdline l.cursor 1 (l.len + 1 - l.cursor)) l.cursor c;
      len = l.len + 1;
      cursor = l.cursor + 1;
    }

abbrev pub with_line : Editor → Line → Editor
with_line e l = record e { line = l }

unfoldable pub press : History → Editor → Key → Outcome
press h e enter = entered (update e.line.cmdline e.line.len 0)
press h e right = editing (with_line e (cursor_right e.line))
press h e left = editing (with_line e (cursor_left e.line))
press h e delete = editing (with_line e (delete_char e.line))
press h e up = editing (if h.count == 0 then e else older h e e.history_cursor)
press h e down = editing (if h.count == 0 then e else newer h e e.history_cursor)
press h e tab = editing (with_line e (complete_app_name e.line))
press h e erase = editing (with_line e (erase_char e.line))
press h e ignored = editing e
press h e (char c) =
    if e.line.len == cmdline_max - 1 then too_long else editing (with_line e (insert_char e.line c))

-- A prompt: the arrays are as they were.
abbrev pub prompt : (ℕ → ℕ) → (ℕ → ℕ) → Editor
prompt cmdline draft = record {
  line = record { cmdline = cmdline; len = 0; cursor = 0 };
  draft = draft;
  draft_len = 0;
  history_cursor = minus_one;
}

-- A round of the loop, with what is read of the input; without a whole key it waits.
abbrev pub round : History → Editor → List ℕ → Option (Key × List ℕ) → Outcome × List ℕ
round h e input none = (editing e, input)
round h e input (some (key, rest)) = (press h e key, rest)

-- At most n rounds of the loop.
unfoldable pub edit_line : History → ℕ → Outcome → List ℕ → Outcome × List ℕ
edit_line h zero o input = (o, input)
edit_line h (suc n) (editing e) input =
    let next = round h e input (read_key input) in edit_line h n next.0 next.1
edit_line h (suc n) (entered cmdline) input = (entered cmdline, input)
edit_line h (suc n) too_long input = (too_long, input)
