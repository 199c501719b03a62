-- ===== src/Syscall/Argv.antt =====
-- The arguments of `execv` in src/kernel/trap/syscall_process.c, as they are copied from the process.
use aqua_core.Prelude.{
  update_other, ℕ, zero, suc, ◌+◌, ◌≤◌, ◌<◌, ◌≡◌, ◌≢◌, refl, sym, ap, ◌∙◌, Option, none, some, List,
  [], arith, take, update, ◌⊎◌, inl, inr,
}
use native.Mathlib.Decide.{ℕ_discrete}
use aqua_core.Syscall.Procs.{Args, store_arg, copy_args, copy_user_argv}

-- The arguments from index i on, n at most, are copied up to the first NULL.
pub record IsCopied (uargv : ℕ → Option (List ℕ)) (i n : ℕ) (r : Args) : Type 0 where
  pub low : i ≤ r.argc
  pub high : r.argc ≤ i + n
  pub args :
      (j : ℕ) → i ≤ j → j < r.argc → (p : List ℕ) × (uargv j ≡ some p) × (r.argv j ≡ take 31 p)
  pub others : (j : ℕ) → (j < i) ⊎ (r.argc ≤ j) → r.argv j ≡ []
  pub stop : r.argc ≢ i + n → uargv r.argc ≡ none

update_here : (f : ℕ → List ℕ) (i j : ℕ) (v : List ℕ) → i ≡ j → update f i v j ≡ v
update_here f i j v e = ground arith

store_arg-IsCopied :
    (uargv : ℕ → Option (List ℕ)) (i n : ℕ) (o : Option (List ℕ)) (rest : Args)
    → uargv i ≡ o
    → IsCopied uargv (i + 1) n rest
    → IsCopied uargv i (suc n) (store_arg o i rest)
store_arg-IsCopied uargv i n none rest e c = record {
  low = omega arith;
  high = omega arith;
  args = λ j lo hi. absurd (omega arith);
  others = λ j h. refl;
  stop = λ ne. e;
}
store_arg-IsCopied uargv i n (some p) rest e c = record {
  low = omega (arith, c.low);
  high = omega (arith, c.high);
  args = λ j lo hi. elim (ℕ_discrete i j) [
    | yes same ↦ (p, ap uargv (sym same) ∙ e, update_here rest.argv i j (take 31 p) same)
    | no ne ↦
        let (q, at, is) = c.args j (omega arith) hi in
        (q, at, update_other rest.argv i j (take 31 p) ne ∙ is)
  ];
  others = λ j h. elim h [
    | inl before ↦
        update_other rest.argv i j (take 31 p) (λ f. absurd (omega (arith, f)))
        ∙ c.others j (inl (omega arith))
    | inr after ↦
        update_other rest.argv i j (take 31 p) (λ f. absurd (omega (arith, f, c.low)))
        ∙ c.others j (inr after)
  ];
  stop = λ ne. c.stop (λ f. ne (omega (arith, f)));
}

copy_args-IsCopied :
    (uargv : ℕ → Option (List ℕ)) (n i : ℕ) → IsCopied uargv i n (copy_args uargv n i)
unfolding copy_args
copy_args-IsCopied uargv zero i = record {
  low = omega arith;
  high = omega arith;
  args = λ j lo hi. absurd (omega arith);
  others = λ j h. refl;
  stop = λ ne. absurd (ne (omega arith));
}
copy_args-IsCopied uargv (suc n) i =
    store_arg-IsCopied uargv i n (uargv i) (copy_args uargv n (i + 1)) refl
      (copy_args-IsCopied uargv n (i + 1))

-- `copy_user_argv` copies the arguments before the first NULL, the first 8 of them if there are more,
-- each cut to 31 bytes, and leaves the others empty.
pub copy_user_argv-IsCopied :
    (uargv : ℕ → Option (List ℕ)) → IsCopied uargv 0 8 (copy_user_argv (some uargv))
unfolding copy_user_argv
copy_user_argv-IsCopied uargv = copy_args-IsCopied uargv 8 0
