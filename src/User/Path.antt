-- ===== src/User/Path.antt =====
-- src/user/runtime/user_path.c. A C string is the list of its bytes before the NUL, and a position in
-- it is the list of the bytes that are left. What `getcwd` returns is an argument.
pub mod Stack
pub mod Resolve
pub mod Joined
pub mod Absolute
use aqua_core.Prelude.{
  ℕ, zero, suc, ◌+◌, ◌-◌, Bool, true, false, Option, none, some, List, [], ◌∷◌, ◌++◌, ltb, leb,
  ◌==◌, if◌then◌else◌, ◌>>=◌, length, take, get_or,
}
use aqua_core.Commonlibs.Text.{strcpy_s, strcat_s}
use aqua_core.Fs.Path.{slash, name_max, str_eq, skip_slashes}

abbrev pub path_max : ℕ
path_max = 64

abbrev pub root : List ℕ
root = slash ∷ []

-- The index of the last slash, from i on downwards, or 0.
unfoldable pub last_slash : List ℕ → ℕ → ℕ
last_slash path zero = 0
last_slash path (suc i) =
    let before = last_slash path i in if get_or path (suc i) 0 == slash then suc i else before

unfoldable pub pop_component : List ℕ → List ℕ
pop_component path =
    let i = last_slash path (length path - 1) in
    if leb (length path) 1 then take 1 path else if i == 0 then take 1 path else take i path

-- The absolute path in its array; none is -1.
unfoldable pub absolute : Option (List ℕ) → List ℕ → Option (List ℕ)
absolute cwd input_path =
    if get_or input_path 0 0 == slash
    then some (strcpy_s [] path_max input_path)
    else cwd >>= λ dir.
        let abs = strcpy_s [] path_max dir in
        let dir_path = if str_eq abs root then abs else strcat_s abs path_max root in
        some (strcat_s dir_path path_max input_path)

-- A token with token_len bytes stored, and what is left of the path.
unfoldable pub read_token : ℕ → List ℕ → List ℕ × List ℕ
read_token token_len [] = ([], [])
read_token token_len (c ∷ cs) =
    let stored = ltb token_len (name_max - 1) in
    let rest = read_token (if stored then token_len + 1 else token_len) cs in
    if c == slash then ([], c ∷ cs) else ((if stored then c ∷ rest.0 else rest.0), rest.1)

-- The bytes of a token go to the path, where there is room.
unfoldable pub put_bytes : List ℕ → List ℕ → Option (List ℕ)
put_bytes norm [] = some norm
put_bytes norm (c ∷ token) =
    let rest = put_bytes (norm ++ c ∷ []) token in
    if leb path_max (length norm + 1) then none else rest

-- A name goes to the path.
unfoldable pub put_name : List ℕ → List ℕ → Option (List ℕ)
put_name norm token = (if ltb 1 (length norm) then put_bytes norm root else some norm) >>= λ norm'.
    put_bytes norm' token

-- What a token does to the path.
unfoldable pub put_token : List ℕ → List ℕ → Option (List ℕ)
put_token norm token =
    if length token == 0
    then some norm
    else if str_eq token (b'.' ∷ [])
    then some norm
    else if str_eq token (b'.' ∷ b'.' ∷ [])
    then some (pop_component norm)
    else put_name norm token

-- The loop over the tokens, at most `fuel` of them.
unfoldable pub normalize : ℕ → List ℕ → List ℕ → Option (List ℕ)
normalize zero norm abs = some norm
normalize (suc fuel) norm abs =
    let token = read_token 0 abs in
    put_token norm token.0 >>= λ norm'.
    if length token.1 == 0 then some norm' else normalize fuel norm' (skip_slashes token.1)

-- none is -1. There is a token for each slash of the path, and one more.
unfoldable pub user_path_resolve : Option (List ℕ) → List ℕ → ℕ → Option (List ℕ)
user_path_resolve cwd input_path out_size =
    if out_size == 0
    then none
    else absolute cwd input_path >>= λ abs.
        normalize (length abs + 1) root (skip_slashes abs) >>= λ norm.
        some (strcpy_s [] out_size norm)
