-- ===== src/Console/Queue.antt =====
-- The ring buffer of src/kernel/trap/syscall_console.c as a queue.
use aqua_core.Prelude.{
  ℕ, zero, suc, ◌+◌, ◌-◌, ◌%◌, ◌<◌, ◌≤◌, ◌≡◌, ◌≢◌, refl, sym, ap, ap₂, ◌∙◌, Option, none, some,
  List, [], ◌∷◌, ◌++◌, map, take, drop, ltb, ◌==◌, update, arith, Bool-cases, inl, inr, ltb→lt,
  ltb-false→le,
}
use mathlib.Core.List.{append_assoc, append-nil}
use aqua_core.Console.{Input, input_size, input_pop, input_push, poll_loop}

-- The n characters from position h on, around the ring.
unfoldable pub entries : (ℕ → ℕ) → ℕ → ℕ → List ℕ
entries buf h zero = []
entries buf h (suc n) = buf h ∷ entries buf ((h + 1) % input_size) n

-- The characters that the buffer holds, the next one first.
abbrev pub contents : Input → List ℕ
contents r = entries r.input_buf r.input_head r.input_count

pub record IsInput (r : Input) : Type 0 where
  pub head : r.input_head < input_size
  pub tail : r.input_tail ≡ (r.input_head + r.input_count) % input_size
  pub count : r.input_count ≤ input_size

entries-update :
    (buf : ℕ → ℕ) (t c h n : ℕ)
    → h < input_size
    → ((j : ℕ) → j < n → (h + j) % input_size ≢ t)
    → entries (update buf t c) h n ≡ entries buf h n
unfolding entries
entries-update buf t c h zero lt other = refl
entries-update buf t c h (suc n) lt other =
    let here : (h + 0) % input_size ≡ h = omega arith in
    let ne : t ≢ h = λ e. other 0 (omega arith) (here ∙ sym e) in
    let same : update buf t c h ≡ buf h = ground arith in
    ap₂ (λ x y. x ∷ y) same
      (entries-update buf t c ((h + 1) % input_size) n (omega arith) (λ j hj e.
        let moved : (h + (j + 1)) % input_size ≡ ((h + 1) % input_size + j) % input_size =
          omega arith in
        other (j + 1) (omega arith) (moved ∙ e)))

entries-snoc :
    (buf : ℕ → ℕ) (h n : ℕ)
    → h < input_size
    → entries buf h (suc n) ≡ entries buf h n ++ buf ((h + n) % input_size) ∷ []
unfolding entries
entries-snoc buf h zero lt =
    let here : (h + 0) % input_size ≡ h = omega arith in ap (λ x. buf x ∷ []) (sym here)
entries-snoc buf h (suc n) lt =
    let next : ((h + 1) % input_size + n) % input_size ≡ (h + suc n) % input_size = omega arith in
    ap (λ l. buf h ∷ l)
      (entries-snoc buf ((h + 1) % input_size) n (omega arith)
        ∙ ap (λ x. entries buf ((h + 1) % input_size) n ++ buf x ∷ []) next)

later_tail :
    (h t n : ℕ) → t ≡ (h + n) % input_size → (t + 1) % input_size ≡ (h + (n + 1)) % input_size
later_tail h t n e = omega arith

pushed : (buf : ℕ → ℕ) (t u c : ℕ) → t ≡ u → update buf t c u ≡ c
pushed buf t u c e = ground arith

apart : (h n j : ℕ) → n < input_size → j < n → (h + j) % input_size ≢ (h + n) % input_size
apart h n j room hj e = omega arith

input_push-IsInput :
    (r : Input) (ch : ℕ) → IsInput r → r.input_count < input_size → IsInput (input_push r ch)
input_push-IsInput r ch i room = record {
  head = i.head;
  tail = later_tail r.input_head r.input_tail r.input_count i.tail;
  count = omega arith;
}

contents-input_push :
    (r : Input) (ch : ℕ)
    → IsInput r
    → r.input_count < input_size
    → contents (input_push r ch) ≡ contents r ++ (ch % 256) ∷ []
contents-input_push r ch i room =
    let h = r.input_head in
    let n = r.input_count in
    let t = r.input_tail in
    let buf = update r.input_buf t (ch % 256) in
    let more : n + 1 ≡ suc n = omega arith in
    let at : buf ((h + n) % input_size) ≡ ch % 256 =
      pushed r.input_buf t ((h + n) % input_size) (ch % 256) i.tail in
    ap (entries buf h) more
    ∙ entries-snoc buf h n i.head
    ∙ ap₂ (λ l x. l ++ x ∷ [])
        (entries-update r.input_buf t (ch % 256) h n i.head
          (λ j hj e. apart h n j room hj (e ∙ i.tail)))
        at

-- What `poll_console_input` makes of the queue.
pub record IsPolled (r : Input) (chars : List ℕ) (polled : Input × List ℕ) : Type 0 where
  pub valid : IsInput polled.0
  pub queue :
      contents polled.0 ≡ contents r ++ map (λ c. c % 256) (take (input_size - r.input_count) chars)
  pub rest : polled.1 ≡ drop (input_size - r.input_count) chars

take-nil : (n : ℕ) → take {A = ℕ} n [] ≡ []
take-nil zero = refl
take-nil (suc n) = refl

drop-nil : (n : ℕ) → drop {A = ℕ} n [] ≡ []
drop-nil zero = refl
drop-nil (suc n) = refl

no_room : (n : ℕ) → input_size ≤ n → input_size - n ≡ 0
no_room n h = omega arith

one_more : (n : ℕ) → n < input_size → input_size - n ≡ suc (input_size - (n + 1))
one_more n h = omega arith

popped_tail :
    (h t n m : ℕ)
    → t ≡ (h + n) % input_size
    → n ≡ suc m
    → t ≡ ((h + 1) % input_size + m) % input_size
popped_tail h t n m e f = omega arith

IsPolled-later :
    (r : Input) (ch : ℕ) (chars : List ℕ) (polled : Input × List ℕ)
    → IsInput r
    → r.input_count < input_size
    → IsPolled (input_push r ch) chars polled
    → IsPolled r (ch ∷ chars) polled
IsPolled-later r ch chars polled i room next =
    let more = sym (one_more r.input_count room) in
    let f : ℕ → ℕ = λ c. c % 256 in
    let m = input_size - (r.input_count + 1) in
    record {
      valid = next.valid;
      queue =
          next.queue
          ∙ ap (λ l. l ++ map f (take m chars)) (contents-input_push r ch i room)
          ∙ append_assoc (contents r) (ch % 256 ∷ []) (map f (take m chars))
          ∙ ap (λ k. contents r ++ map f (take k (ch ∷ chars))) more;
      rest = next.rest ∙ ap (λ k. drop k (ch ∷ chars)) more;
    }

-- On a valid ring buffer, polling appends the waiting characters to the queue, as bytes and in their
-- order, as many as there is room for; the others still wait.
pub poll_loop_lem : (r : Input) (chars : List ℕ) → IsInput r → IsPolled r chars (poll_loop r chars)
unfolding poll_loop
poll_loop_lem r [] i = record {
  valid = i;
  queue =
      sym (append-nil (contents r))
      ∙ ap (λ l. contents r ++ map (λ c. c % 256) l) (sym (take-nil (input_size - r.input_count)));
  rest = sym (drop-nil (input_size - r.input_count));
}
poll_loop_lem r (ch ∷ chars) i = elim (Bool-cases (ltb r.input_count input_size)) [
  | inl e ↦
      let room : r.input_count < input_size = ltb→lt r.input_count input_size e in
      let next = poll_loop_lem (input_push r ch) chars (input_push-IsInput r ch i room) in
      rw e (IsPolled-later r ch chars (poll_loop (input_push r ch) chars) i room next)
  | inr e ↦
      let full = no_room r.input_count (ltb-false→le r.input_count input_size e) in
      rw e (record {
        valid = i;
        queue =
            sym (append-nil (contents r))
            ∙ ap (λ m. contents r ++ map (λ c. c % 256) (take m (ch ∷ chars))) (sym full);
        rest = ap (λ m. drop m (ch ∷ chars)) (sym full);
      })
]

-- The state of a queue after a pop.
pub data IsPopped (r : Input) : Option ℕ × Input → Type 0 where
  popped :
      (ch : ℕ) (r' : Input) → contents r ≡ ch ∷ contents r' → IsInput r' → IsPopped r (some ch, r')
  none_left : contents r ≡ [] → IsPopped r (none, r)

-- On a valid ring buffer, `input_pop` takes the first character off the queue, and gives none exactly
-- when the queue is empty.
pub input_pop_lem : (r : Input) → IsInput r → IsPopped r (input_pop r)
unfolding input_pop entries
input_pop_lem r i = elim (Bool-cases (r.input_count == 0)) [
  | inl e ↦
      let empty : r.input_count ≡ 0 = ground (arith, e) in
      rw e (none_left (ap (entries r.input_buf r.input_head) empty))
  | inr e ↦
      let more : r.input_count ≡ suc (r.input_count - 1) = ground (arith, e) in
      rw e (
        popped (r.input_buf r.input_head) _ (ap (entries r.input_buf r.input_head) more) (record {
          head = omega arith;
          tail =
              popped_tail r.input_head r.input_tail r.input_count (r.input_count - 1) i.tail more;
          count = omega (arith, i.count);
        }))
]
