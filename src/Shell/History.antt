-- ===== src/Shell/History.antt =====
-- The command history of src/user/apps/shell/utils.c: the ring `history`, `history_head` and
-- `history_count`, and its file. A stored line is the list of its bytes before the NUL. A file that is
-- read is the list of what the successive calls of `fs_read` return.
pub mod Ring
pub mod Stored
pub mod Loaded
use aqua_core.Prelude.{
  ℕ, zero, suc, ◌+◌, ◌-◌, ◌*◌, ◌%◌, Bool, true, false, not, ◌&&◌, ◌||◌, Option, none, some, List,
  [], ◌∷◌, ◌++◌, ltb, leb, ◌==◌, if◌then◌else◌, length, take, update, ℤ, pos, negsuc,
}
use aqua_core.Shell.{cmdline_max, history_max}

pub record History : Type 0 where
  pub lines : ℕ → List ℕ
  pub head : ℕ
  pub count : ℕ

-- The index of the entry i, the oldest first.
abbrev pub index_of : History → ℕ → ℕ
index_of h i = (h.head + i) % history_max

unfoldable pub history_push : History → List ℕ → History
history_push h [] = h
history_push h (c ∷ line) =
    let stored = take (cmdline_max - 1) (c ∷ line) in
    if ltb h.count history_max
    then record h { lines = update h.lines (index_of h h.count) stored; count = h.count + 1 }
    else record h { lines = update h.lines h.head stored; head = (h.head + 1) % history_max }

-- What is copied to an array of out_max bytes; none is -1.
unfoldable pub history_get : History → ℤ → ℕ → Option (List ℕ)
history_get h (negsuc n) out_max = none
history_get h (pos i) out_max =
    if out_max == 0 || leb h.count i
    then none
    else some (take (out_max - 1) (h.lines (index_of h i)))

unfoldable pub history_encoded_line_len : List ℕ → ℕ
history_encoded_line_len [] = 1
history_encoded_line_len (c ∷ s) =
    history_encoded_line_len s + (if c == 10 || c == b'\\' then 2 else 1)

-- The first loop of `history_serialize`, with the entries below i to come: the first entry that is
-- written. `start` is i as the loop goes.
unfoldable pub start_from : History → ℕ → ℕ → ℕ → ℕ
start_from h out_cap total zero = 0
start_from h out_cap total (suc i) =
    let total' = total + history_encoded_line_len (h.lines (index_of h i)) in
    let earlier = start_from h out_cap total' i in if ltb out_cap total' then suc i else earlier

-- The loop over the bytes of an entry, after `out`: what is written, and whether the loop has not
-- returned.
unfoldable pub write_line : ℕ → List ℕ → List ℕ → List ℕ × Bool
write_line out_cap out [] = (out, true)
write_line out_cap out (c ∷ s) =
    let special = c == 10 || c == b'\\' in
    let coded = if special then b'\\' ∷ (if c == 10 then b'n' else b'\\') ∷ [] else c ∷ [] in
    let rest = write_line out_cap (out ++ coded) s in
    if leb out_cap (length out)
    then (out, true)
    else if ltb out_cap (length out + length coded)
    then (out, false)
    else rest

-- The second loop, from the entry i on.
unfoldable pub write_from : History → ℕ → List ℕ → ℕ → ℕ → List ℕ
write_from h out_cap out i zero = out
write_from h out_cap out i (suc n) =
    let line = write_line out_cap out (h.lines (index_of h i)) in
    let rest = write_from h out_cap (line.0 ++ 10 ∷ []) (i + 1) n in
    if not line.1 || ltb out_cap (length line.0 + 1) then line.0 else rest

unfoldable pub history_serialize : History → ℕ → List ℕ
history_serialize h out_cap =
    let start = start_from h out_cap 0 h.count in
    if out_cap == 0 then [] else write_from h out_cap [] start (h.count - start)

-- The state of the loop of `history_load`.
pub record Loading : Type 0 where
  pub history : History
  pub line : List ℕ
  pub escaped : Bool

-- A byte goes to the line if it has room.
abbrev pub add_byte : List ℕ → ℕ → List ℕ
add_byte line c = if ltb (length line) (cmdline_max - 1) then line ++ c ∷ [] else line

unfoldable pub load_byte : Loading → ℕ → Loading
load_byte l c =
    if c == 13
    then l
    else if l.escaped
    then record l { line = add_byte l.line (if c == b'n' then 10 else c); escaped = false }
    else if c == b'\\'
    then record l { escaped = true }
    else if c == 10
    then record l { history = history_push l.history l.line; line = [] }
    else record l { line = add_byte l.line c }

unfoldable pub load_bytes : Loading → List ℕ → Loading
load_bytes l [] = l
load_bytes l (c ∷ cs) = load_bytes (load_byte l c) cs

-- The loop over what the calls of `fs_read` return, until one returns nothing.
unfoldable pub load_chunks : Loading → List (List ℕ) → Loading
load_chunks l [] = l
load_chunks l ([] ∷ chunks) = l
load_chunks l ((c ∷ cs) ∷ chunks) = load_chunks (load_bytes l (c ∷ cs)) chunks

-- What follows the loop.
unfoldable pub load_end : Loading → History
load_end l = history_push l.history (if l.escaped then add_byte l.line b'\\' else l.line)

-- `none` stands for an `fs_open` that fails.
unfoldable pub history_load : History → Option (List (List ℕ)) → History
history_load h none = h
history_load h (some chunks) = load_end (
    load_chunks (record { history = record h { head = 0; count = 0 }; line = []; escaped = false })
      chunks)
