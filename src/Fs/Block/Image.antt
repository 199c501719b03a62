-- ===== src/Fs/Block/Image.antt =====
-- The image of a node table in src/kernel/fs/fs.c, byte by byte: what is read off it is what was put in.
use aqua_core.Prelude.{
  ℕ, zero, suc, ◌+◌, ◌-◌, ◌*◌, ◌/◌, ◌%◌, ◌^◌, ◌<◌, ◌≡◌, ◌≢◌, refl, sym, ap, ap₂, ◌∙◌, Bool, true,
  false, not, List, [], ◌∷◌, arith, length, get_or, ltb, ◌==◌, ℤ, pos, negsuc, if-true, if-false,
}
use aqua_core.Fs.Path.{name_max}
use aqua_core.Fs.Node.{Node, Nodes, max_nodes, file_max_size}
use aqua_core.Fs.Block.{
  word_byte, int_word, bool_word, node_size, image_size, node_byte, image_byte, word_int, word_at,
  string_at, node_at, pfs_magic,
}

abbrev pub IsText : List ℕ → Type 0
IsText [] = Unit
IsText (c ∷ cs) = (c ≢ 0) × IsText cs

abbrev pub IsInt : ℤ → Type 0
IsInt (pos n) = n < 2 ^ 31
IsInt (negsuc n) = n < 2 ^ 31

-- A node whose fields are values of their C types, with a string in the name's array.
pub record IsStorable (n : Node) : Type 0 where
  pub type : n.type < 2 ^ 32
  pub parent : IsInt n.parent
  pub name : IsText n.name
  pub short : length n.name < name_max
  pub size : n.size < 2 ^ 32

-- The node agrees with what was stored.
pub record SameNode (n n' : Node) : Type 0 where
  pub used : n'.used ≡ n.used
  pub type : n'.type ≡ n.type
  pub parent : n'.parent ≡ n.parent
  pub name : n'.name ≡ n.name
  pub size : n'.size ≡ n.size
  pub bytes : (k : ℕ) → k < file_max_size → n'.bytes k ≡ n.bytes k

word_of_bytes :
    (img : ℕ → ℕ) (o w : ℕ)
    → w < 2 ^ 32
    → img o ≡ word_byte w 0
    → img (o + 1) ≡ word_byte w 1
    → img (o + 2) ≡ word_byte w 2
    → img (o + 3) ≡ word_byte w 3
    → word_at img o ≡ w
word_of_bytes img o w lt a b c d = omega arith

bool_word-lt : (b : Bool) → bool_word b < 2 ^ 32
bool_word-lt true = omega arith
bool_word-lt false = omega arith

used_back : (b : Bool) → not (bool_word b == 0) ≡ b
used_back true = refl
used_back false = refl

word_int-int_word : (x : ℤ) → IsInt x → word_int (int_word x) ≡ x
word_int-int_word (pos n) h = ground arith
word_int-int_word (negsuc n) h =
    let high : ltb (2 ^ 32 - 1 - n) (2 ^ 31) ≡ false = ground arith in
    let back : 2 ^ 32 - 1 - (2 ^ 32 - 1 - n) ≡ n = omega arith in if-false _ _ high ∙ ap negsuc back

int_word-lt : (x : ℤ) → IsInt x → int_word x < 2 ^ 32
int_word-lt (pos n) h = omega arith
int_word-lt (negsuc n) h = omega arith

string_at-text :
    (img : ℕ → ℕ) (o n : ℕ) (s : List ℕ)
    → IsText s
    → length s < n
    → ((j : ℕ) → j < n → img (o + j) ≡ get_or s j 0)
    → string_at img o n ≡ s
unfolding string_at
string_at-text img o zero s t lt h = absurd (omega arith)
string_at-text img o (suc n) [] t lt h =
    let here : o + 0 ≡ o = omega arith in
    let nul : (img o == 0) ≡ true = rw (ap img (sym here) ∙ h 0 (omega arith)) refl in
    if-true _ _ nul
string_at-text img o (suc n) (c ∷ s) (ne, t) lt h =
    let here : o + 0 ≡ o = omega arith in
    let at : img o ≡ c = ap img (sym here) ∙ h 0 (omega arith) in
    let char : (img o == 0) ≡ false = ground arith in
    let rest = string_at-text img (o + 1) n s t (omega arith) (λ j hj.
      let next : o + 1 + j ≡ o + suc j = omega arith in ap img next ∙ h (suc j) (omega arith)) in
    if-false _ _ char ∙ ap₂ (λ a b. a ∷ b) at rest

module _ (img : ℕ → ℕ) (o : ℕ) (n : Node) (s : IsStorable n)
    (stored : (k : ℕ) → k < node_size → img (o + k) ≡ node_byte n k) where
  -- The word at offset m, where the node's bytes are those of w.
  field :
      (m w : ℕ)
      → m + 3 < node_size
      → w < 2 ^ 32
      → node_byte n m ≡ word_byte w 0
      → node_byte n (m + 1) ≡ word_byte w 1
      → node_byte n (m + 2) ≡ word_byte w 2
      → node_byte n (m + 3) ≡ word_byte w 3
      → word_at img (o + m) ≡ w
  field m w lt small a b c d =
      let one : o + m + 1 ≡ o + (m + 1) = omega arith in
      let two : o + m + 2 ≡ o + (m + 2) = omega arith in
      let three : o + m + 3 ≡ o + (m + 3) = omega arith in
      word_of_bytes img (o + m) w small (stored m (omega arith) ∙ a)
        (ap img one ∙ stored (m + 1) (omega arith) ∙ b)
        (ap img two ∙ stored (m + 2) (omega arith) ∙ c)
        (ap img three ∙ stored (m + 3) (omega arith) ∙ d)

  used_word : word_at img o ≡ bool_word n.used
  unfolding node_byte
  used_word =
      let here : o + 0 ≡ o = omega arith in
      ap (word_at img) (sym here)
      ∙ field 0 (bool_word n.used) (omega arith) (bool_word-lt n.used) refl refl refl refl

  name_bytes : (j : ℕ) → j < name_max → img (o + 12 + j) ≡ get_or n.name j 0
  unfolding node_byte
  name_bytes j lt =
      let sum : o + 12 + j ≡ o + (12 + j) = omega arith in
      let a : ltb (12 + j) 4 ≡ false = ground arith in
      let b : ltb (12 + j) 8 ≡ false = ground arith in
      let c : ltb (12 + j) 12 ≡ false = ground arith in
      let d : ltb (12 + j) 28 ≡ true = ground arith in
      let back : 12 + j - 12 ≡ j = omega arith in
      ap img sum
      ∙ stored (12 + j) (omega arith)
      ∙ if-false _ _ a
      ∙ if-false _ _ b
      ∙ if-false _ _ c
      ∙ if-true _ _ d
      ∙ ap (λ m. get_or n.name m 0) back

  data_bytes : (k : ℕ) → k < file_max_size → img (o + 32 + k) ≡ n.bytes k
  unfolding node_byte
  data_bytes k lt =
      let sum : o + 32 + k ≡ o + (32 + k) = omega arith in
      let a : ltb (32 + k) 4 ≡ false = ground arith in
      let b : ltb (32 + k) 8 ≡ false = ground arith in
      let c : ltb (32 + k) 12 ≡ false = ground arith in
      let d : ltb (32 + k) 28 ≡ false = ground arith in
      let e : ltb (32 + k) 32 ≡ false = ground arith in
      let back : 32 + k - 32 ≡ k = omega arith in
      ap img sum
      ∙ stored (32 + k) (omega arith)
      ∙ if-false _ _ a
      ∙ if-false _ _ b
      ∙ if-false _ _ c
      ∙ if-false _ _ d
      ∙ if-false _ _ e
      ∙ ap n.bytes back

  pub node_at-SameNode : SameNode n (node_at img o)
  unfolding node_at node_byte
  node_at-SameNode = record {
    used = ap (λ w. not (w == 0)) used_word ∙ used_back n.used;
    type = field 4 n.type (omega arith) s.type refl refl refl refl;
    parent =
        ap word_int (
          field 8 (int_word n.parent) (omega arith) (int_word-lt n.parent s.parent) refl refl refl
            refl)
        ∙ word_int-int_word n.parent s.parent;
    name = string_at-text img (o + 12) name_max n.name s.name s.short name_bytes;
    size = field 28 n.size (omega arith) s.size refl refl refl refl;
    bytes = data_bytes;
  }

-- The node table in an image of which every byte is in place.
module _ (img : ℕ → ℕ) (nodes : Nodes)
    (whole : (p : ℕ) → p < image_size → img p ≡ image_byte nodes p) where
  pub magic_word : word_at img 0 ≡ pfs_magic
  unfolding image_byte
  magic_word =
      word_of_bytes img 0 pfs_magic (omega arith) (whole 0 (omega arith)) (whole 1 (omega arith))
        (whole 2 (omega arith)) (whole 3 (omega arith))

  node_bytes :
      (i k : ℕ)
      → i < max_nodes
      → k < node_size
      → img (4 + i * node_size + k) ≡ node_byte (nodes i) k
  unfolding image_byte
  node_bytes i k hi hk =
      let past : ltb (4 + i * node_size + k) 4 ≡ false = ground arith in
      let index : (4 + i * node_size + k - 4) / node_size ≡ i = omega arith in
      let offset : (4 + i * node_size + k - 4) % node_size ≡ k = omega arith in
      whole (4 + i * node_size + k) (omega arith)
      ∙ if-false _ _ past
      ∙ ap₂ (λ a b. node_byte (nodes a) b) index offset

  pub image-SameNode :
      (i : ℕ)
      → i < max_nodes
      → IsStorable (nodes i)
      → SameNode (nodes i) (node_at img (4 + i * node_size))
  image-SameNode i lt s =
      node_at-SameNode img (4 + i * node_size) (nodes i) s (λ k hk. node_bytes i k lt hk)
