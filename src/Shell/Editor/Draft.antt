-- ===== src/Shell/Editor/Draft.antt =====
-- The draft of the line editor in src/user/apps/shell/main.c, which the history's entries replace.
use aqua_core.Prelude.{
  ℕ, ◌+◌, ◌-◌, ◌<◌, ◌≡◌, refl, subst, false, ap, sym, ◌∙◌, arith, ltb, ◌==◌, update, if-false, pos,
  minus_one, List, [], ◌∷◌, ◌++◌, take,
}
use aqua_core.Commonlibs.Buffer.{memcpy, memcpy_lem}
use aqua_core.Fs.Block.Image.{IsText}
use aqua_core.Shell.{cmdline_max}
use aqua_core.Shell.History.{History}
use aqua_core.Shell.History.Ring.{entries}
use aqua_core.Shell.Editor.Shown.{IsShowing, show_entry-IsShowing, newest_entry}
use aqua_core.Shell.Editor.{Editor, up, down, editing, press, show_entry, older, newer}

-- The editor has the line of e again, with the cursor at its end, and no entry of the history.
pub record IsDraftOf (e e' : Editor) : Type 0 where
  pub len : e'.line.len ≡ e.line.len
  pub cursor : e'.line.cursor ≡ e.line.len
  pub bytes : (k : ℕ) → k < e.line.len → e'.line.cmdline k ≡ e.line.cmdline k
  pub nul : e'.line.cmdline e.line.len ≡ 0
  pub place : e'.history_cursor ≡ minus_one

-- What the two keys do, where the newest entry of the history is the given string.
pub record IsBack (h : History) (newest : List ℕ) (e : Editor) : Type 0 where
  pub shown : Editor
  pub back : Editor
  pub goes_up : press h e up ≡ editing shown
  pub at_newest : shown.history_cursor ≡ pos (h.count - 1)
  pub shows : IsShowing (take (cmdline_max - 1) newest) shown.line
  pub goes_down : press h shown down ≡ editing back
  pub draft : IsDraftOf e back

copied : (a b : ℕ → ℕ) (n k : ℕ) → k < n → update (memcpy a 0 b 0 n) n 0 k ≡ b k
copied a b n k lt =
    let at : 0 + (k - 0) ≡ k = omega arith in ground (arith, memcpy_lem a 0 b 0 n k, ap b at)

-- When no entry of the history is shown and there is one, whose newest one has no NUL, the arrow up
-- shows the newest one: the line is the entry, cut to the 63 bytes that the array has room for, with its
-- NUL and the cursor at its end. The arrow down then brings the line of before back, byte by byte, with
-- the cursor at its end.
pub press-draft :
    (h : History) (e : Editor) (before : List (List ℕ)) (newest : List ℕ)
    → entries h ≡ before ++ newest ∷ []
    → IsText newest
    → e.history_cursor ≡ minus_one
    → IsBack h newest e
unfolding press older newer show_entry
press-draft h e before newest last_one text place =
    let (some_entry, is_newest) = newest_entry h before newest last_one in
    let some_b : (h.count == 0) ≡ false = ground (arith, some_entry) in
    let last : ltb (h.count - 1) (h.count - 1) ≡ false = ground arith in
    let shown = older h e minus_one in
    let draft = update (memcpy e.draft 0 e.line.cmdline 0 e.line.len) e.line.len 0 in
    record {
      shown = shown;
      back = newer h shown (pos (h.count - 1));
      goes_up = ap editing (if-false _ _ some_b ∙ ap (older h e) place);
      at_newest = refl;
      shows =
          subst (λ s. IsShowing (take (cmdline_max - 1) s) shown.line) is_newest
            (show_entry-IsShowing h (record e { draft = draft; draft_len = e.line.len })
              (h.count - 1) (omega (arith, some_entry)) (subst IsText (sym is_newest) text));
      goes_down = ap editing (if-false _ _ some_b);
      draft = subst (IsDraftOf e) (sym (if-false _ _ last)) (record {
        len = refl;
        cursor = refl;
        bytes = λ k lt.
            copied shown.line.cmdline draft e.line.len k lt
            ∙ copied e.draft e.line.cmdline e.line.len k lt;
        nul = ground arith;
        place = refl;
      });
    }
