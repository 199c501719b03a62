-- ===== src/Shell/Editor/Text.antt =====
-- Texts with a cursor, as what the editing keys of src/user/apps/shell/main.c work on.
use aqua_core.Prelude.{
  ℕ, suc, ◌+◌, ◌-◌, ◌<◌, ◌≡◌, refl, ap, ap₂, ◌∙◌, Bool, true, false, List, [], ◌∷◌, arith, ltb,
  ◌==◌, ltb-false→le,
}
use aqua_core.Shell.{cmdline_max}
use aqua_core.Shell.Complete.{Line}
use aqua_core.Shell.Arrays.{bytes_from, bytes_before, bytes_from-same, bytes_before-same}
use aqua_core.Shell.Editor.{Key, right, left, delete, erase, char}

-- A text with a cursor: the bytes before it, the nearest first, and the bytes after it.
pub record Text : Type 0 where
  pub before : List ℕ
  pub after : List ℕ

abbrev pub moved_left : List ℕ → List ℕ → Text
moved_left [] after = record { before = []; after = after }
moved_left (c ∷ before) after = record { before = before; after = c ∷ after }

abbrev pub moved_right : List ℕ → List ℕ → Text
moved_right before [] = record { before = before; after = [] }
moved_right before (c ∷ after) = record { before = c ∷ before; after = after }

abbrev pub erased : List ℕ → List ℕ → Text
erased [] after = record { before = []; after = after }
erased (c ∷ before) after = record { before = before; after = after }

abbrev pub deleted : List ℕ → List ℕ → Text
deleted before [] = record { before = before; after = [] }
deleted before (c ∷ after) = record { before = before; after = after }

-- What an editing key means on a text.
abbrev pub edited : Key → Text → Text
edited (char c) t = record t { before = c ∷ t.before }
edited left t = moved_left t.before t.after
edited right t = moved_right t.before t.after
edited erase t = erased t.before t.after
edited delete t = deleted t.before t.after
edited _ t = t

-- The editing keys; a character needs room in the line.
abbrev pub is_edit : Key → ℕ → Bool
is_edit (char c) len = ltb len (cmdline_max - 1)
is_edit left len = true
is_edit right len = true
is_edit erase len = true
is_edit delete len = true
is_edit _ len = false

abbrev pub text_of : Line → Text
text_of l = record {
  before = bytes_before l.cmdline l.cursor;
  after = bytes_from l.cmdline l.cursor (l.len - l.cursor);
}

-- Lines with the same bytes around their cursors.
pub same_text :
    (b a : List ℕ) (l : Line)
    → bytes_before l.cmdline l.cursor ≡ b
    → bytes_from l.cmdline l.cursor (l.len - l.cursor) ≡ a
    → text_of l ≡ record { before = b; after = a }
same_text b a l before after =
    ap₂ (λ (x : List ℕ) (y : List ℕ). record { before = x; after = y }) before after

pub before_more :
    (a a' : ℕ → ℕ) (m n c : ℕ)
    → m ≡ suc n
    → a' n ≡ c
    → ((k : ℕ) → k < n → a' k ≡ a k)
    → bytes_before a' m ≡ c ∷ bytes_before a n
before_more a a' m n c e last same =
    ap (bytes_before a') e ∙ ap₂ ◌∷◌ last (bytes_before-same a a' n same)

pub from_same :
    (a a' : ℕ → ℕ) (i j m n : ℕ)
    → m ≡ n
    → ((k : ℕ) → k < n → a' (j + k) ≡ a (i + k))
    → bytes_from a' j m ≡ bytes_from a i n
from_same a a' i j m n e same = ap (bytes_from a' j) e ∙ bytes_from-same a a' i j n same

-- The bytes around the cursor when there is one before it, and one after it.
pub before_some :
    (a : ℕ → ℕ) (n : ℕ) → 0 < n → bytes_before a n ≡ a (n - 1) ∷ bytes_before a (n - 1)
before_some a n lt = before_more a a n (n - 1) (a (n - 1)) (omega arith) refl (λ k k_lt. refl)

pub from_some :
    (a : ℕ → ℕ) (i n : ℕ) → 0 < n → bytes_from a i n ≡ a i ∷ bytes_from a (i + 1) (n - 1)
from_some a i n lt = let e : n ≡ suc (n - 1) = omega arith in ap (bytes_from a i) e

pub none_before : (a : ℕ → ℕ) (n : ℕ) → (n == 0) ≡ true → bytes_before a n ≡ []
none_before a n h = let e : n ≡ 0 = ground arith in ap (bytes_before a) e

pub none_from :
    (l : Line) → ltb l.cursor l.len ≡ false → bytes_from l.cmdline l.cursor (l.len - l.cursor) ≡ []
none_from l h =
    let e : l.len - l.cursor ≡ 0 = omega (arith, ltb-false→le l.cursor l.len h) in
    ap (bytes_from l.cmdline l.cursor) e
