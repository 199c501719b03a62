-- ===== src/Shell/Tests.antt =====
-- Command lines, a history and an editor of the shell.
use aqua_core.Prelude.{
  ℕ, ◌>>=◌, get_or, ◌≡◌, ◌↔◌, ◌%◌, ◌++◌, refl, some, none, List, [], ◌∷◌, map, arith, take,
  if◌then◌else◌, u32,
}
use aqua_core.Commonlibs.Text.{codes, append_u32}
use aqua_core.Commonlibs.Text.Decimal.{decimal_value, is_number}
use aqua_core.Fs.Path.{str_eq}
use aqua_core.Fs.Block.Image.{IsText}
use aqua_core.Shell.Args.{split_args, token_at, parse_int, parse_redirection}
use aqua_core.Shell.Args.Words.{words, split_args-words}
use aqua_core.Shell.Args.Number.{parse_int_lem, parse_int-append_u32}
use aqua_core.Shell.Args.Redirect.{
  Part, arg, input, output, written, arguments, last_input, last_output, IsPlain, IsDangling,
  parse_redirection-written, parse_redirection-none,
}
use aqua_core.Shell.History.{
  History, history_push, history_serialize, history_load, start_from, write_from, write_line,
  history_encoded_line_len,
}
use aqua_core.Shell.History.Ring.{IsRing, IsPushed, history_push-IsPushed}
use aqua_core.Shell.History.Stored.{IsSaved, history_serialize-IsSaved}
use aqua_core.Shell.History.Loaded.{IsLine, contents, IsRestored, history_load-history_serialize}
use aqua_core.Shell.Editor.{Editor, char, up, prompt, press, edit_line, editing}
use aqua_core.Shell.Complete.{Line, replace_first_token}
use aqua_core.Shell.Complete.Token.{Replacement, replace_first_token-Replacement}
use aqua_core.Shell.Editor.Text.{edited, text_of}
use aqua_core.Shell.Editor.Moves.{IsEdited, press-edited}
use aqua_core.Shell.Editor.Bounds.{IsSound, SoundOutcome, press-SoundOutcome}
use aqua_core.Shell.Editor.Draft.{IsBack, press-draft}
use aqua_core.Shell.Editor.Typed.{IsEntered, IsTyped, edit_line-typed}

-- "ls  /a"
abbrev list_line : List ℕ
list_line = codes "ls  /a"

list_line-IsText : IsText list_line
list_line-IsText = (
  ground arith,
  (ground arith, (ground arith, (ground arith, (ground arith, (ground arith, tt))))),
)

split_args-words_example :
    map (token_at (split_args list_line 8).line) (split_args list_line 8).argv
    ≡ take 8 (words list_line)
split_args-words_example = split_args-words list_line 8 list_line-IsText

abbrev mixed : List ℕ
mixed = codes "12x"

parse_int_lem_example :
    parse_int mixed ≡ (if is_number mixed then some (decimal_value 0 mixed % u32) else none)
parse_int_lem_example = parse_int_lem mixed

parse_int-append_u32_example : (append_u32 16 [] 4096 >>= parse_int) ≡ some 4096
parse_int-append_u32_example = parse_int-append_u32 16 4096 (omega arith) (omega arith)

-- cat < a > b
abbrev cat_parts : List Part
cat_parts = arg (codes "cat") ∷ input (codes "a") ∷ output (codes "b") ∷ []

cat_parts-IsPlain : IsPlain cat_parts
unfolding str_eq
cat_parts-IsPlain = (refl, tt)

parse_redirection-written_example :
    parse_redirection (written cat_parts)
    ≡ some (record {
      exec_argv = arguments cat_parts;
      in_path = last_input none cat_parts;
      out_path = last_output none cat_parts;
    })
parse_redirection-written_example = parse_redirection-written cat_parts cat_parts-IsPlain

-- cat >
abbrev cut_off : List (List ℕ)
cut_off = codes "cat" ∷ codes ">" ∷ []

parse_redirection-none_example : (parse_redirection cut_off ≡ none) ↔ IsDangling cut_off
parse_redirection-none_example = parse_redirection-none cut_off

-- A history with one line.
abbrev one_line : History
one_line = record { lines = λ i. codes "ps"; head = 0; count = 1 }

one_line-IsRing : IsRing one_line
one_line-IsRing = record { head = omega arith; count = omega arith }

ps-IsLine : IsLine (codes "ps")
ps-IsLine = record {
  no_return = (ground arith, (ground arith, tt));
  nonempty = omega arith;
  short = omega arith;
}

history_push-IsPushed_example : IsPushed one_line list_line (history_push one_line list_line)
history_push-IsPushed_example = history_push-IsPushed one_line list_line one_line-IsRing

history_serialize-IsSaved_example :
    IsSaved one_line 2 (start_from one_line 2 0 1) (history_serialize one_line 2)
history_serialize-IsSaved_example = history_serialize-IsSaved one_line 2 (omega arith)

-- Two reads of the file.
abbrev two_reads : List (List ℕ)
two_reads = (b'p' ∷ b's' ∷ []) ∷ (10 ∷ []) ∷ []

two_reads_whole : contents two_reads ≡ history_serialize one_line 512
unfolding history_serialize start_from write_from write_line history_encoded_line_len
two_reads_whole = refl

history_load-history_serialize_example :
    IsRestored one_line (history_serialize one_line 512) (history_load one_line (some two_reads))
history_load-history_serialize_example =
    history_load-history_serialize one_line one_line two_reads one_line-IsRing (λ k lt. ps-IsLine)
      (omega arith, (omega arith, tt)) two_reads_whole

abbrev fresh : Editor
fresh = prompt (λ i. 0) (λ i. 0)

fresh-IsSound : IsSound one_line fresh
fresh-IsSound = record {
  line = record { cursor = omega arith; len = omega arith };
  draft = omega arith;
  place = refl;
}

press-edited_example :
    IsEdited fresh (edited (char 97) (text_of fresh.line)) (press one_line fresh (char 97))
press-edited_example = press-edited one_line fresh (char 97) (omega arith) refl

press-SoundOutcome_example : SoundOutcome one_line fresh (press one_line fresh up)
press-SoundOutcome_example = press-SoundOutcome one_line fresh up fresh-IsSound

ps-IsText : IsText (codes "ps")
ps-IsText = (ground arith, (ground arith, tt))

press-draft_example : IsBack one_line (codes "ps") fresh
press-draft_example = press-draft one_line fresh [] (codes "ps") refl ps-IsText refl

ps-IsTyped : IsTyped (codes "ps")
ps-IsTyped = (omega arith, ground arith, (omega arith, ground arith, tt))

edit_line-typed_example :
    IsEntered
      (codes "ps")
      []
      (edit_line one_line 3 (editing (prompt (λ i. 0) (λ i. 0))) (codes "ps" ++ 13 ∷ []))
edit_line-typed_example =
    edit_line-typed one_line (λ i. 0) (λ i. 0) (codes "ps") [] 3 ps-IsTyped (omega arith)
      (omega arith)

-- "l /a", with the cursor after the "l".
abbrev l_line : Line
l_line = record { cmdline = λ i. get_or (codes "l /a") i 0; len = 4; cursor = 1 }

replace_first_token-Replacement_example :
    Replacement l_line 1 (codes "ls") (replace_first_token l_line 1 (codes "ls"))
replace_first_token-Replacement_example =
    replace_first_token-Replacement l_line 1 (codes "ls") (omega arith)
