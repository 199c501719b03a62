-- ===== src/Shell/Args/Redirect.antt =====
-- `parse_redirection` of src/user/apps/shell/utils.c against the command lines that it is for.
use aqua_core.Prelude.{
  ℕ, ◌≡◌, refl, ap, sym, ◌∙◌, Bool, true, false, ◌||◌, Option, none, some, List, subst, ◌⊎◌, ◌↔◌,
  [], ◌∷◌, ◌++◌, arith, Bool-cases, inl, inr,
}
use mathlib.Core.List.{append_assoc}
use aqua_core.Fs.Path.{str_eq}
use aqua_core.Fs.Path.Names.{str_eq_iff}
use aqua_core.Shell.Args.{
  input_op, output_op, Redirection, keep_word, redirect_from, parse_redirection,
}

-- The test for an operator.
abbrev pub is_op : List ℕ → Bool
is_op w = str_eq w input_op || str_eq w output_op

-- A part of a command line: an argument, or an operator with its path.
pub data Part : Type 0 where
  arg input output : List ℕ → Part

abbrev pub written : List Part → List (List ℕ)
written [] = []
written (arg w ∷ ps) = w ∷ written ps
written (input p ∷ ps) = input_op ∷ p ∷ written ps
written (output p ∷ ps) = output_op ∷ p ∷ written ps

-- No argument is an operator.
abbrev pub IsPlain : List Part → Type 0
IsPlain [] = Unit
IsPlain (arg w ∷ ps) = (is_op w ≡ false) × IsPlain ps
IsPlain (input p ∷ ps) = IsPlain ps
IsPlain (output p ∷ ps) = IsPlain ps

abbrev pub arguments : List Part → List (List ℕ)
arguments [] = []
arguments (arg w ∷ ps) = w ∷ arguments ps
arguments (input p ∷ ps) = arguments ps
arguments (output p ∷ ps) = arguments ps

-- The last path, or the one before the parts.
abbrev pub last_input : Option (List ℕ) → List Part → Option (List ℕ)
last_input path [] = path
last_input path (arg w ∷ ps) = last_input path ps
last_input path (input p ∷ ps) = last_input (some p) ps
last_input path (output p ∷ ps) = last_input path ps

abbrev pub last_output : Option (List ℕ) → List Part → Option (List ℕ)
last_output path [] = path
last_output path (arg w ∷ ps) = last_output path ps
last_output path (input p ∷ ps) = last_output path ps
last_output path (output p ∷ ps) = last_output (some p) ps

abbrev meaning : Option (List ℕ) → Option (List ℕ) → List Part → Redirection
meaning i o ps = record {
  exec_argv = arguments ps;
  in_path = last_input i ps;
  out_path = last_output o ps;
}

redirect_from-arg :
    (i o : Option (List ℕ)) (w : List ℕ) (ws : List (List ℕ))
    → is_op w ≡ false
    → redirect_from i o (w ∷ ws) ≡ keep_word w (redirect_from i o ws)
unfolding redirect_from
redirect_from-arg i o w [] plain = rw plain refl
redirect_from-arg i o w (v ∷ ws) plain = rw plain refl

redirect_from-input :
    (i o : Option (List ℕ)) (p : List ℕ) (ws : List (List ℕ))
    → redirect_from i o (input_op ∷ p ∷ ws) ≡ redirect_from (some p) o ws
unfolding redirect_from str_eq
redirect_from-input i o p ws = refl

redirect_from-output :
    (i o : Option (List ℕ)) (p : List ℕ) (ws : List (List ℕ))
    → redirect_from i o (output_op ∷ p ∷ ws) ≡ redirect_from i (some p) ws
unfolding redirect_from str_eq
redirect_from-output i o p ws = refl

redirect_from-last :
    (i o : Option (List ℕ)) (op : List ℕ) → is_op op ≡ true → redirect_from i o (op ∷ []) ≡ none
unfolding redirect_from
redirect_from-last i o op h = rw h refl

redirect_from-nil :
    (i o : Option (List ℕ))
    → redirect_from i o [] ≡ some (record { exec_argv = []; in_path = i; out_path = o })
unfolding redirect_from
redirect_from-nil i o = refl

redirect_from-written :
    (i o : Option (List ℕ)) (ps : List Part)
    → IsPlain ps
    → redirect_from i o (written ps) ≡ some (meaning i o ps)
redirect_from-written i o [] plain = redirect_from-nil i o
redirect_from-written i o (arg w ∷ ps) (w_plain, plain) =
    redirect_from-arg i o w (written ps) w_plain
    ∙ ap (keep_word w) (redirect_from-written i o ps plain)
redirect_from-written i o (input p ∷ ps) plain =
    redirect_from-input i o p (written ps) ∙ redirect_from-written (some p) o ps plain
redirect_from-written i o (output p ∷ ps) plain =
    redirect_from-output i o p (written ps) ∙ redirect_from-written i (some p) ps plain

-- A command line that is made of arguments, none of them `<` or `>`, and of operators with their paths
-- is taken apart: the arguments remain in their order, and of several paths for an operator the last
-- one counts.
pub parse_redirection-written :
    (ps : List Part)
    → IsPlain ps
    → parse_redirection (written ps)
      ≡ some (record {
        exec_argv = arguments ps;
        in_path = last_input none ps;
        out_path = last_output none ps;
      })
unfolding parse_redirection
parse_redirection-written ps plain = redirect_from-written none none ps plain

redirect_from-dangling :
    (i o : Option (List ℕ)) (ps : List Part) (op : List ℕ)
    → IsPlain ps
    → is_op op ≡ true
    → redirect_from i o (written ps ++ op ∷ []) ≡ none
redirect_from-dangling i o [] op plain h = redirect_from-last i o op h
redirect_from-dangling i o (arg w ∷ ps) op (w_plain, plain) h =
    redirect_from-arg i o w (written ps ++ op ∷ []) w_plain
    ∙ ap (keep_word w) (redirect_from-dangling i o ps op plain h)
redirect_from-dangling i o (input p ∷ ps) op plain h =
    redirect_from-input i o p (written ps ++ op ∷ [])
    ∙ redirect_from-dangling (some p) o ps op plain h
redirect_from-dangling i o (output p ∷ ps) op plain h =
    redirect_from-output i o p (written ps ++ op ∷ [])
    ∙ redirect_from-dangling i (some p) ps op plain h

-- The command line is made of whole parts and an operator at its end.
pub record IsDangling (argv : List (List ℕ)) : Type 0 where
  pub parts : List Part
  pub op : List ℕ
  pub plain : IsPlain parts
  pub is_operator : is_op op ≡ true
  pub same : argv ≡ written parts ++ op ∷ []

data Reading (argv : List (List ℕ)) : Type 0 where
  whole : (ps : List Part) → IsPlain ps → argv ≡ written ps → Reading argv
  broken : IsDangling argv → Reading argv

op_cases : (w : List ℕ) → is_op w ≡ true → (w ≡ input_op) ⊎ (w ≡ output_op)
op_cases w h = elim (Bool-cases (str_eq w input_op)) [
  | inl e ↦ inl ((str_eq_iff w input_op).0 e)
  | inr e ↦ inr ((str_eq_iff w output_op).0 (ground arith))
]

-- A part before a command line.
read_more :
    (pre : List (List ℕ)) (part : Part) {argv : List (List ℕ)}
    → ((ps : List Part) → written (part ∷ ps) ≡ pre ++ written ps)
    → ((ps : List Part) → IsPlain ps → IsPlain (part ∷ ps))
    → Reading argv
    → Reading (pre ++ argv)
read_more pre part shape keep (whole ps plain e) =
    whole (part ∷ ps) (keep ps plain) (ap (λ ws. pre ++ ws) e ∙ sym (shape ps))
read_more pre part shape keep (broken d) = broken (record {
  parts = part ∷ d.parts;
  op = d.op;
  plain = keep d.parts d.plain;
  is_operator = d.is_operator;
  same =
      ap (λ ws. pre ++ ws) d.same
      ∙ sym (append_assoc pre (written d.parts) (d.op ∷ []))
      ∙ ap (λ ws. ws ++ d.op ∷ []) (sym (shape d.parts));
})

reading : (argv : List (List ℕ)) → Reading argv
reading [] = whole [] tt refl
reading (w ∷ []) = elim (Bool-cases (is_op w)) [
  | inl e ↦ broken (record { parts = []; op = w; plain = tt; is_operator = e; same = refl })
  | inr e ↦ whole (arg w ∷ []) (e, tt) refl
]
reading (w ∷ v ∷ ws) = elim (Bool-cases (is_op w)) [
  | inl e ↦ elim (op_cases w e) [
    | inl same ↦
        subst (λ x. Reading (x ∷ v ∷ ws)) (sym same)
          (read_more (input_op ∷ v ∷ []) (input v) (λ ps. refl) (λ ps p. p) (reading ws))
    | inr same ↦
        subst (λ x. Reading (x ∷ v ∷ ws)) (sym same)
          (read_more (output_op ∷ v ∷ []) (output v) (λ ps. refl) (λ ps p. p) (reading ws))
  ]
  | inr e ↦ read_more (w ∷ []) (arg w) (λ ps. refl) (λ ps p. (e, p)) (reading (v ∷ ws))
]

IsDangling→none : (argv : List (List ℕ)) → IsDangling argv → parse_redirection argv ≡ none
unfolding parse_redirection
IsDangling→none argv d =
    ap (redirect_from none none) d.same
    ∙ redirect_from-dangling none none d.parts d.op d.plain d.is_operator

none→IsDangling :
    (argv : List (List ℕ)) → Reading argv → parse_redirection argv ≡ none → IsDangling argv
none→IsDangling argv (broken d) h = d
none→IsDangling argv (whole ps plain e) h =
    cc (ap parse_redirection e, parse_redirection-written ps plain)

-- `parse_redirection` fails on the command lines that end in a `<` or `>` with no path, the ones before
-- it having theirs, and on no other.
pub parse_redirection-none :
    (argv : List (List ℕ)) → (parse_redirection argv ≡ none) ↔ IsDangling argv
parse_redirection-none argv = (none→IsDangling argv (reading argv), IsDangling→none argv)
