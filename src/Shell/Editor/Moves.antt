-- ===== src/Shell/Editor/Moves.antt =====
-- The editing keys of src/user/apps/shell/main.c against a list with a cursor.
use aqua_core.Prelude.{
  ℕ, ◌+◌, ◌-◌, ◌≤◌, ◌≡◌, refl, ap, sym, ◌∙◌, true, false, ◌∷◌, arith, ltb, ◌==◌, update, if-cases,
  if-false,
}
use aqua_core.Shell.{cmdline_max}
use aqua_core.Shell.History.{History}
use aqua_core.Shell.Complete.{Line}
use aqua_core.Shell.Arrays.{move_up, move_down, move_up_lem, move_down_lem, bytes_before-same}
use aqua_core.Shell.Editor.{
  Editor, Key, enter, up, down, right, left, delete, tab, erase, ignored, char, Outcome, editing,
  with_line, delete_char, erase_char, insert_char, press, cursor_left, cursor_right,
}
use aqua_core.Shell.Editor.Text.{
  Text, moved_left, moved_right, erased, deleted, edited, is_edit, text_of, same_text, before_more,
  from_same, before_some, from_some, none_before, none_from,
}

insert_char-text :
    (l : Line) (c : ℕ) → l.cursor ≤ l.len → text_of (insert_char l c) ≡ edited (char c) (text_of l)
unfolding insert_char
insert_char-text l c le =
    if-cases (λ l'. text_of l' ≡ edited (char c) (text_of l)) (l.cursor == l.len) _ _
      (λ end.
        let a' = update l.cmdline l.len c in
        same_text _ _ _
          (before_more l.cmdline a' (l.len + 1) l.cursor c (ground arith) (ground arith)
            (λ k lt. ground arith))
          (from_same l.cmdline a' l.cursor (l.len + 1) (l.len + 1 - (l.len + 1)) (l.len - l.cursor)
            (ground arith) (λ k lt. ground arith)))
      (λ inside.
        let moved = move_up l.cmdline l.cursor 1 (l.len + 1 - l.cursor) in
        let a' = update moved l.cursor c in
        same_text _ _ _
          (before_more l.cmdline a' (l.cursor + 1) l.cursor c (omega arith) (ground arith)
            (λ k lt. ground (arith, move_up_lem l.cmdline l.cursor 1 (l.len + 1 - l.cursor) k)))
          (from_same l.cmdline a' l.cursor (l.cursor + 1) (l.len + 1 - (l.cursor + 1))
            (l.len - l.cursor) (omega arith)
            (λ k lt.
              let back : l.cursor + 1 + k - 1 ≡ l.cursor + k = omega arith in
              ground (
                arith,
                move_up_lem l.cmdline l.cursor 1 (l.len + 1 - l.cursor) (l.cursor + 1 + k),
                ap l.cmdline back,
              ))))

erase_char-text :
    (l : Line)
    → l.cursor ≤ l.len
    → text_of (erase_char l) ≡ erased (text_of l).before (text_of l).after
unfolding erase_char
erase_char-text l le =
    if-cases (λ l'. text_of l' ≡ erased (text_of l).before (text_of l).after) (l.cursor == 0) _ _
      (λ start.
        let nothing = none_before l.cmdline l.cursor start in
        same_text _ _ l nothing refl ∙ ap (λ b. erased b (text_of l).after) (sym nothing))
      (λ inside.
        let p = l.cursor - 1 in
        let moved = move_down l.cmdline p 1 (l.len - 1 - p) in
        let a' = update moved (l.len - 1) 0 in
        same_text _ _ _
          (bytes_before-same l.cmdline a' p
            (λ k lt. ground (arith, move_down_lem l.cmdline p 1 (l.len - 1 - p) k)))
          (from_same l.cmdline a' l.cursor p (l.len - 1 - p) (l.len - l.cursor) (ground arith)
            (λ k lt.
              let back : p + k + 1 ≡ l.cursor + k = ground arith in
              ground
                (arith, move_down_lem l.cmdline p 1 (l.len - 1 - p) (p + k), ap l.cmdline back)))
        ∙ ap (λ b. erased b (text_of l).after)
            (sym (before_some l.cmdline l.cursor (ground arith))))

delete_char-text :
    (l : Line) → text_of (delete_char l) ≡ deleted (text_of l).before (text_of l).after
unfolding delete_char
delete_char-text l =
    if-cases (λ l'. text_of l' ≡ deleted (text_of l).before (text_of l).after) (ltb l.cursor l.len)
      _ _
      (λ inside.
        let n = l.len - 1 - l.cursor in
        let a' = update (move_down l.cmdline l.cursor 1 n) (l.len - 1) 0 in
        same_text _ _ _
          (bytes_before-same l.cmdline a' l.cursor
            (λ k lt. ground (arith, move_down_lem l.cmdline l.cursor 1 n k)))
          (from_same l.cmdline a' (l.cursor + 1) l.cursor n (l.len - l.cursor - 1) (ground arith)
            (λ k lt.
              let next : l.cursor + k + 1 ≡ l.cursor + 1 + k = omega arith in
              ground
                (arith, move_down_lem l.cmdline l.cursor 1 n (l.cursor + k), ap l.cmdline next)))
        ∙ ap (deleted (text_of l).before)
            (sym (from_some l.cmdline l.cursor (l.len - l.cursor) (ground arith))))
      (λ end.
        let nothing = none_from l end in
        same_text _ _ l refl nothing ∙ ap (deleted (text_of l).before) (sym nothing))

cursor_left-text :
    (l : Line)
    → l.cursor ≤ l.len
    → text_of (cursor_left l) ≡ moved_left (text_of l).before (text_of l).after
unfolding cursor_left
cursor_left-text l le =
    if-cases (λ l'. text_of l' ≡ moved_left (text_of l).before (text_of l).after) (l.cursor == 0) _
      _
      (λ start.
        let nothing = none_before l.cmdline l.cursor start in
        same_text _ _ l nothing refl ∙ ap (λ b. moved_left b (text_of l).after) (sym nothing))
      (λ inside.
        let p = l.cursor - 1 in
        same_text _ _ _ refl (
          from_some l.cmdline p (l.len - p) (ground arith)
          ∙ ap (◌∷◌ (l.cmdline p)) (
              from_same l.cmdline l.cmdline l.cursor (p + 1) (l.len - p - 1) (l.len - l.cursor)
                (ground arith)
                (λ k lt. let e : p + 1 + k ≡ l.cursor + k = ground arith in ap l.cmdline e)))
        ∙ ap (λ b. moved_left b (text_of l).after)
            (sym (before_some l.cmdline l.cursor (ground arith))))

cursor_right-text :
    (l : Line) → text_of (cursor_right l) ≡ moved_right (text_of l).before (text_of l).after
unfolding cursor_right
cursor_right-text l =
    if-cases (λ l'. text_of l' ≡ moved_right (text_of l).before (text_of l).after)
      (ltb l.cursor l.len) _ _
      (λ inside.
        same_text _ _ _
          (before_more l.cmdline l.cmdline (l.cursor + 1) l.cursor (l.cmdline l.cursor)
            (omega arith) refl (λ k lt. refl))
          (from_same l.cmdline l.cmdline (l.cursor + 1) (l.cursor + 1) (l.len - (l.cursor + 1))
            (l.len - l.cursor - 1) (omega arith) (λ k lt. refl))
        ∙ ap (moved_right (text_of l).before)
            (sym (from_some l.cmdline l.cursor (l.len - l.cursor) (ground arith))))
      (λ end.
        let nothing = none_from l end in
        same_text _ _ l refl nothing ∙ ap (moved_right (text_of l).before) (sym nothing))

-- The editor goes on, and its text is the given one. The draft and the place in the history are as
-- they were.
pub record IsEdited (e : Editor) (t : Text) (o : Outcome) : Type 0 where
  pub line : Line
  pub goes_on : o ≡ editing (with_line e line)
  pub text : text_of line ≡ t

-- With the cursor in the line, an editing key does to the array, its length and the cursor what it means
-- on a text with a cursor: a character, if the line is shorter than 63 bytes, goes before the cursor;
-- the erase key removes the byte before the cursor and the delete key the one after it, if there is
-- one; the arrows left and right move the cursor by one byte, if there is one to pass. The draft and
-- the place in the history stay.
pub press-edited :
    (h : History) (e : Editor) (k : Key)
    → e.line.cursor ≤ e.line.len
    → is_edit k e.line.len ≡ true
    → IsEdited e (edited k (text_of e.line)) (press h e k)
unfolding press
press-edited h e (char c) le ok = record {
  line = insert_char e.line c;
  goes_on = let room : (e.line.len == cmdline_max - 1) ≡ false = ground arith in if-false _ _ room;
  text = insert_char-text e.line c le;
}
press-edited h e left le ok = record {
  line = cursor_left e.line;
  goes_on = refl;
  text = cursor_left-text e.line le;
}
press-edited h e right le ok = record {
  line = cursor_right e.line;
  goes_on = refl;
  text = cursor_right-text e.line;
}
press-edited h e erase le ok = record {
  line = erase_char e.line;
  goes_on = refl;
  text = erase_char-text e.line le;
}
press-edited h e delete le ok = record {
  line = delete_char e.line;
  goes_on = refl;
  text = delete_char-text e.line;
}
press-edited h e enter le ok = cc
press-edited h e up le ok = cc
press-edited h e down le ok = cc
press-edited h e tab le ok = cc
press-edited h e ignored le ok = cc
