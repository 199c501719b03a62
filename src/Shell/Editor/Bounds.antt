-- ===== src/Shell/Editor/Bounds.antt =====
-- The bounds of the line editor in src/user/apps/shell/main.c: where the cursor, the lengths and the
-- place in the history are.
use aqua_core.Prelude.{
  ℕ, zero, suc, ◌+◌, ◌-◌, ◌≤◌, ◌<◌, ◌≡◌, ◌≢◌, refl, ap, sym, subst, ◌∙◌, ◌||◌, List, [], ◌∷◌, arith,
  ltb, leb, ◌==◌, if-cases, ℤ, pos, negsuc, length, take, length-take, minus_one,
}
use aqua_core.Shell.{cmdline_max}
use aqua_core.Shell.History.{History, index_of, history_get}
use aqua_core.Shell.Args.{is_blank}
use aqua_core.Shell.Apps.{shell_app_names}
use aqua_core.Shell.Complete.{
  Line, first_token_end, replace_first_token, complete_with, complete_app_name, matches, shared_len,
}
use aqua_core.Shell.Arrays.{store, str_len}
use aqua_core.Shell.Editor.Shown.{store-nul, history_get-some}
use aqua_core.Shell.Editor.{
  Editor, Key, enter, up, down, right, left, delete, tab, erase, ignored, char, Outcome, editing,
  entered, too_long, with_line, delete_char, erase_char, insert_char, press, cursor_left,
  cursor_right, fetched, show_entry, older, newer,
}

-- The cursor is in the line, and the line leaves room for its NUL.
pub record IsInside (l : Line) : Type 0 where
  pub cursor : l.cursor ≤ l.len
  pub len : l.len < cmdline_max

-- An entry of the history, or none.
abbrev pub IsPlace : History → ℤ → Type 0
IsPlace h (pos i) = i < h.count
IsPlace h (negsuc n) = negsuc n ≡ minus_one

pub record IsSound (h : History) (e : Editor) : Type 0 where
  pub line : IsInside e.line
  pub draft : e.draft_len < cmdline_max
  pub place : IsPlace h e.history_cursor

-- The editor goes on soundly, or the line ends with a NUL in its array, or it was full.
abbrev pub SoundOutcome : History → Editor → Outcome → Type 0
SoundOutcome h e (editing e') = IsSound h e'
SoundOutcome h e (entered cmdline) = (n : ℕ) × (n < cmdline_max) × (cmdline n ≡ 0)
SoundOutcome h e too_long = e.line.len + 1 ≡ cmdline_max

first_token_end-le : (s : ℕ → ℕ) (n i : ℕ) → first_token_end s n i ≤ i + n
unfolding first_token_end
first_token_end-le s zero i = omega arith
first_token_end-le s (suc n) i =
    if-cases (λ k. k ≤ i + suc n) (is_blank (s i)) _ _ (λ e. omega arith)
      (λ e. omega (arith, first_token_end-le s n (i + 1)))

replace_first_token-IsInside :
    (l : Line) (old_len : ℕ) (token : List ℕ)
    → IsInside l
    → IsInside (replace_first_token l old_len token)
unfolding replace_first_token
replace_first_token-IsInside l old_len token inside =
    if-cases IsInside (leb cmdline_max (length token + (l.len - old_len))) _ _ (λ long. inside)
      (λ fits. record { cursor = omega arith; len = ground arith })

complete_with-IsInside :
    (l : Line) (token_end : ℕ) (names : List (List ℕ))
    → IsInside l
    → IsInside (complete_with l token_end names)
unfolding complete_with
complete_with-IsInside l token_end [] inside = inside
complete_with-IsInside l token_end (name ∷ []) inside =
    replace_first_token-IsInside l token_end name inside
complete_with-IsInside l token_end (name ∷ other ∷ names) inside =
    let lcp = shared_len name (length name) (other ∷ names) in
    if-cases IsInside (ltb token_end lcp) _ _
      (λ longer. replace_first_token-IsInside l token_end (take lcp name) inside) (λ same. inside)

complete_app_name-IsInside : (l : Line) → IsInside l → IsInside (complete_app_name l)
unfolding complete_app_name
complete_app_name-IsInside l inside =
    let token_end = first_token_end l.cmdline l.len 0 in
    if-cases IsInside (ltb token_end l.cursor || l.cursor == 0) _ _ (λ outside. inside)
      (λ within.
        complete_with-IsInside l token_end (matches l.cmdline l.cursor shell_app_names) inside)

delete_char-IsInside : (l : Line) → IsInside l → IsInside (delete_char l)
unfolding delete_char
delete_char-IsInside l inside =
    if-cases IsInside (ltb l.cursor l.len) _ _
      (λ some_byte. record {
        cursor = ground (arith, inside.cursor);
        len = omega (arith, inside.len);
      })
      (λ end. inside)

erase_char-IsInside : (l : Line) → IsInside l → IsInside (erase_char l)
unfolding erase_char
erase_char-IsInside l inside =
    if-cases IsInside (l.cursor == 0) _ _ (λ start. inside)
      (λ some_byte. record {
        cursor = omega (arith, inside.cursor);
        len = omega (arith, inside.len);
      })

insert_char-IsInside :
    (l : Line) (c : ℕ) → IsInside l → l.len + 1 < cmdline_max → IsInside (insert_char l c)
unfolding insert_char
insert_char-IsInside l c inside room =
    if-cases IsInside (l.cursor == l.len) _ _
      (λ end. record { cursor = omega arith; len = omega arith })
      (λ middle. record { cursor = omega (arith, inside.cursor); len = omega arith })

cursor_right-IsInside : (l : Line) → IsInside l → IsInside (cursor_right l)
unfolding cursor_right
cursor_right-IsInside l inside =
    if-cases IsInside (ltb l.cursor l.len) _ _
      (λ some_byte. record { cursor = ground arith; len = inside.len }) (λ end. inside)

cursor_left-IsInside : (l : Line) → IsInside l → IsInside (cursor_left l)
unfolding cursor_left
cursor_left-IsInside l inside =
    if-cases IsInside (l.cursor == 0) _ _ (λ start. inside)
      (λ some_byte. record { cursor = omega (arith, inside.cursor); len = inside.len })

str_len-le : (a : ℕ → ℕ) (n i j : ℕ) → i ≤ j → j < i + n → a j ≡ 0 → str_len a n i ≤ j
unfolding str_len
str_len-le a zero i j le lt nul = omega arith
str_len-le a (suc n) i j le lt nul =
    if-cases (λ k. k ≤ j) (a i == 0) _ _ (λ here. le)
      (λ live.
        let ne : i ≢ j = λ e. absurd (ground (arith, ap a e)) in
        str_len-le a n (i + 1) j (omega arith) (omega arith) nul)

shown_len-lt :
    (h : History) (a : ℕ → ℕ) (i : ℕ)
    → i < h.count
    → str_len (fetched a (history_get h (pos i) cmdline_max)) cmdline_max 0 < cmdline_max
shown_len-lt h a i lt =
    let s = take (cmdline_max - 1) (h.lines (index_of h i)) in
    subst (λ o. str_len (fetched a o) cmdline_max 0 < cmdline_max) (sym (history_get-some h i lt))
      (let short = length-take (cmdline_max - 1) (h.lines (index_of h i)) in
        let nul : store a 0 s (length s) ≡ 0 =
          (let e : length s ≡ 0 + length s = omega arith in ap (store a 0 s) e) ∙ store-nul a 0 s in
        omega (
          arith,
          short,
          str_len-le (store a 0 s) cmdline_max 0 (length s) (omega arith) (omega (arith, short))
              nul,
        ))

show_entry-IsSound :
    (h : History) (e : Editor) (i : ℕ)
    → e.draft_len < cmdline_max
    → i < h.count
    → IsSound h (show_entry h e (pos i))
unfolding show_entry
show_entry-IsSound h e i draft lt = record {
  line = record { cursor = omega arith; len = shown_len-lt h e.line.cmdline i lt };
  draft = draft;
  place = lt;
}

older-IsSound :
    (h : History) (e : Editor) (i : ℤ)
    → IsSound h e
    → 0 < h.count
    → IsPlace h i
    → IsSound h (older h e i)
unfolding older
older-IsSound h e (negsuc n) sound some_entry place =
    show_entry-IsSound h _ (h.count - 1) sound.line.len (omega arith)
older-IsSound h e (pos i) sound some_entry place =
    show_entry-IsSound h e (i - 1) sound.draft (omega arith)

newer-IsSound :
    (h : History) (e : Editor) (i : ℤ) → IsSound h e → IsPlace h i → IsSound h (newer h e i)
unfolding newer
newer-IsSound h e (negsuc n) sound place = sound
newer-IsSound h e (pos i) sound place =
    if-cases (IsSound h) (ltb i (h.count - 1)) _ _
      (λ more. show_entry-IsSound h e (i + 1) sound.draft (ground arith))
      (λ last. record {
        line = record { cursor = omega arith; len = sound.draft };
        draft = sound.draft;
        place = refl;
      })

-- The line is another one, the rest is as it was.
relined :
    (h : History) (e : Editor) (l : Line) → IsSound h e → IsInside l → IsSound h (with_line e l)
relined h e l sound inside = record { line = inside; draft = sound.draft; place = sound.place }

-- Every key keeps the bounds of the editor: the cursor is in the line, the line and the draft leave room
-- for their NULs in arrays of 64 bytes, and the place in the history is one of its entries or none.
-- When the line is entered it has a NUL in its array, and when it is refused it is full.
pub press-SoundOutcome :
    (h : History) (e : Editor) (k : Key) → IsSound h e → SoundOutcome h e (press h e k)
unfolding press
press-SoundOutcome h e enter sound = (e.line.len, sound.line.len, ground arith)
press-SoundOutcome h e up sound =
    if-cases (IsSound h) (h.count == 0) _ _ (λ nothing. sound)
      (λ some_entry. older-IsSound h e e.history_cursor sound (ground arith) sound.place)
press-SoundOutcome h e down sound =
    if-cases (IsSound h) (h.count == 0) _ _ (λ nothing. sound)
      (λ some_entry. newer-IsSound h e e.history_cursor sound sound.place)
press-SoundOutcome h e right sound = relined h e _ sound (cursor_right-IsInside e.line sound.line)
press-SoundOutcome h e left sound = relined h e _ sound (cursor_left-IsInside e.line sound.line)
press-SoundOutcome h e delete sound = relined h e _ sound (delete_char-IsInside e.line sound.line)
press-SoundOutcome h e tab sound =
    relined h e _ sound (complete_app_name-IsInside e.line sound.line)
press-SoundOutcome h e erase sound = relined h e _ sound (erase_char-IsInside e.line sound.line)
press-SoundOutcome h e ignored sound = sound
press-SoundOutcome h e (char c) sound =
    if-cases (SoundOutcome h e) (e.line.len == cmdline_max - 1) _ _ (λ full. ground arith)
      (λ room.
        relined h e _ sound
          (insert_char-IsInside e.line c sound.line (ground (arith, sound.line.len))))
