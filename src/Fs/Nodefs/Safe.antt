-- ===== src/Fs/Nodefs/Safe.antt =====
-- The operations of an instance in src/kernel/fs/fs.c, one by one: what each keeps.
use aqua_core.Prelude.{
  ℕ, ◌≤◌, ◌<◌, ◌≡◌, refl, subst, true, false, ◌&&◌, List, arith, ◌==◌, if◌then◌else◌, Bool-cases,
  inl, inr, update, none, some, Option-cases, bit_and, bit_or,
}
use aqua_core.Commonlibs.Buffer.{memset}
use aqua_core.Fs.Node.{
  Nodefs, zero_node, file_max_size, type_file, type_dir, is_dir_empty, resolve_path,
}
use aqua_core.Fs.Node.Tree.{IsFile, IsTree}
use aqua_core.Fs.Node.Lookup.{IsUsed, resolve_path-IsUsed}
use aqua_core.Fs.Node.Grow.{AgreeBut-update, IsFile-moved}
use aqua_core.Fs.Node.Alter.{
  IsTree-cleared, is_dir_empty-childless, IsFile-childless, IsTree-changed, IsFile-changed,
}
use aqua_core.Fs.Block.{BlockDev}
use aqua_core.Fs.Nodefs.{
  Reply, FdTable, create_at, open_node, nodefs_open, nodefs_mkdir, nodefs_unlink, nodefs_rmdir,
  is_node_open, has_flag, o_rdonly, o_wronly, o_creat, o_trunc, drop_node,
}
use aqua_core.Fs.Nodefs.Keep.{
  Keeps, Keeps-refl, Keeps-trans, CreatedAt, Opened, synced_instance, synced-Opened, create_at_lem,
  used-IsFile,
}

module _ {D : Type 0} (dev : BlockDev D) where
  Keeps-changed :
      (fs : Nodefs) (node size : ℕ) (bytes : ℕ → ℕ)
      → IsTree fs.nodes
      → IsFile fs.nodes node
      → size ≤ file_max_size
      → Keeps fs (record fs {
        nodes = update fs.nodes node (record (fs.nodes node) { size = size; bytes = bytes });
      })
  Keeps-changed fs node size bytes t f fits = record {
    tree = IsTree-changed fs.nodes node size bytes t f fits;
    mount = refl;
    files = IsFile-changed fs.nodes node size bytes t f fits;
  }

  open_node_lem :
      (fs : Nodefs) (disk : D) (flags node : ℕ)
      → IsTree fs.nodes
      → IsUsed fs.nodes node
      → Opened dev fs (open_node dev fs disk flags node)
  unfolding open_node
  open_node_lem fs disk flags node t u = elim (Bool-cases ((fs.nodes node).type == type_file)) [
    | inr e ↦ rw e (Keeps-refl fs t)
    | inl e ↦
        let f = used-IsFile fs.nodes node t u (ground arith) in
        let fits : 0 ≤ file_max_size = omega arith in
        let k = Keeps-changed fs node 0 (memset (fs.nodes node).bytes 0 0 file_max_size) t f fits in
        elim (Bool-cases (has_flag flags o_trunc && has_flag flags o_wronly)) [
          | inr g ↦ rw (e, g) (Keeps-refl fs t, f, refl)
          | inl g ↦ rw (e, g) (synced-Opened dev fs _ node disk k (k.files node f))
        ]
  ]

  -- An operation on a later instance, seen from an earlier one.
  Opened-after :
      (fs fs' : Nodefs) (reply : Reply D (ℕ × ℕ))
      → Keeps fs fs'
      → Opened dev fs' reply
      → Opened dev fs reply
  Opened-after fs fs' (none, fs'', disk) k o = Keeps-trans fs fs' fs'' k o
  Opened-after fs fs' (some (node, offset), fs'', disk) k (k', f, e) =
      (Keeps-trans fs fs' fs'' k k', f, e)

  open_created :
      (fs : Nodefs) (flags : ℕ) (reply : Reply D ℕ)
      → CreatedAt dev fs type_file reply
      → Opened dev fs (elim (reply.0) as (λ o. Reply D (ℕ × ℕ)) [
        | none ↦ (none, reply.1, reply.2)
        | some node ↦ open_node dev reply.1 reply.2 flags node
      ])
  open_created fs flags (none, fs', disk') c = c
  open_created fs flags (some node, fs', disk') c =
      Opened-after fs fs' (open_node dev fs' disk' flags node) c.keeps (
        open_node_lem fs' disk' flags node c.keeps.tree
          (record { bounded = c.bounded; used = c.used }))

  -- `nodefs_open` keeps the tree and every file; if it succeeds, it returns a file at offset 0.
  pub nodefs_open_lem :
      (fs : Nodefs) (disk : D) (path : List ℕ) (flags : ℕ)
      → IsTree fs.nodes
      → Opened dev fs (nodefs_open dev fs disk path flags)
  unfolding nodefs_open
  nodefs_open_lem fs disk path flags t = elim (Option-cases (resolve_path fs.nodes path)) [
    | inr (node, e) ↦
        let flags' =
          if bit_and flags (bit_or o_rdonly o_wronly) == 0 then bit_or flags o_rdonly else flags in
        rw (e, nodefs_open)
          (open_node_lem fs disk flags' node t (resolve_path-IsUsed fs.nodes path node t e))
    | inl e ↦
        let flags' =
          if bit_and flags (bit_or o_rdonly o_wronly) == 0 then bit_or flags o_rdonly else flags in
        elim (Bool-cases (has_flag flags' o_creat)) [
          | inl g ↦
              rw (e, nodefs_open, g)
                (open_created fs flags' (create_at dev fs disk type_file path)
                  (create_at_lem dev fs disk type_file path t (inl refl)))
          | inr g ↦ rw (e, nodefs_open, g) (Keeps-refl fs t)
        ]
  ]

  mkdir_created :
      (fs : Nodefs) (reply : Reply D ℕ)
      → CreatedAt dev fs type_dir reply
      → Keeps fs
          (elim (reply.0) as (λ o. Reply D (Unit {0})) [
            | none ↦ (none, reply.1, reply.2)
            | some idx ↦ (some tt, reply.1, reply.2)
          ]).1
  mkdir_created fs (none, fs', disk') c = c
  mkdir_created fs (some idx, fs', disk') c = c.keeps

  -- `nodefs_mkdir` keeps the tree and every file.
  pub nodefs_mkdir_lem :
      (fs : Nodefs) (disk : D) (path : List ℕ)
      → IsTree fs.nodes
      → Keeps fs (nodefs_mkdir dev fs disk path).1
  unfolding nodefs_mkdir
  nodefs_mkdir_lem fs disk path t =
      mkdir_created fs (create_at dev fs disk type_dir path)
        (create_at_lem dev fs disk type_dir path t (inr refl))

  Keeps-dropped_dir :
      (fs : Nodefs) (node : ℕ)
      → IsTree fs.nodes
      → 0 < node
      → (fs.nodes node).type ≡ type_dir
      → is_dir_empty fs.nodes node ≡ true
      → Keeps fs (drop_node fs node)
  Keeps-dropped_dir fs node t p dir empty = record {
    tree = IsTree-cleared fs.nodes node t p (is_dir_empty-childless fs.nodes node empty);
    mount = refl;
    files = λ k f.
        IsFile-moved fs.nodes (update fs.nodes node zero_node) node
          (AgreeBut-update fs.nodes node zero_node) k
          (λ e. ground (arith, f.file, subst (λ j. (fs.nodes j).type ≡ type_dir) e dir)) f;
  }

  -- `nodefs_rmdir` keeps the tree and every file.
  pub nodefs_rmdir_lem :
      (fs : Nodefs) (disk : D) (path : List ℕ)
      → IsTree fs.nodes
      → Keeps fs (nodefs_rmdir dev fs disk path).1
  unfolding nodefs_rmdir
  nodefs_rmdir_lem fs disk path t = elim (Option-cases (resolve_path fs.nodes path)) [
    | inl e ↦ rw (e, nodefs_rmdir) (Keeps-refl fs t)
    | inr (node, e) ↦ elim (Bool-cases (node == 0)) [
      | inl z ↦ rw (e, nodefs_rmdir, z) (Keeps-refl fs t)
      | inr z ↦ elim (Bool-cases ((fs.nodes node).type == type_dir)) [
        | inr d ↦ rw (e, nodefs_rmdir, z, d) (Keeps-refl fs t)
        | inl d ↦ elim (Bool-cases (is_dir_empty fs.nodes node)) [
          | inr f ↦ rw (e, nodefs_rmdir, z, d, f) (Keeps-refl fs t)
          | inl f ↦
              rw (e, nodefs_rmdir, z, d, f, synced_instance dev tt (drop_node fs node) disk)
                (Keeps-dropped_dir fs node t (ground arith) (ground arith) f)
        ]
      ]
    ]
  ]

-- What `nodefs_unlink` keeps: the tree, and every file that is open.
pub record KeepsOpen (fds : FdTable) (fs fs' : Nodefs) : Type 0 where
  pub tree : IsTree fs'.nodes
  pub mount : fs'.mount_idx ≡ fs.mount_idx
  pub files : (k : ℕ) → IsFile fs.nodes k → is_node_open fds fs k ≡ true → IsFile fs'.nodes k

pub Keeps→KeepsOpen : (fds : FdTable) (fs fs' : Nodefs) → Keeps fs fs' → KeepsOpen fds fs fs'
Keeps→KeepsOpen fds fs fs' k = record {
  tree = k.tree;
  mount = k.mount;
  files = λ j f o. k.files j f;
}

KeepsOpen-dropped :
    (fds : FdTable) (fs : Nodefs) (node : ℕ)
    → IsTree fs.nodes
    → IsFile fs.nodes node
    → is_node_open fds fs node ≡ false
    → KeepsOpen fds fs (drop_node fs node)
KeepsOpen-dropped fds fs node t f closed = record {
  tree = IsTree-cleared fs.nodes node t f.positive (IsFile-childless fs.nodes node t f);
  mount = refl;
  files = λ k g open_k.
      IsFile-moved fs.nodes (update fs.nodes node zero_node) node
        (AgreeBut-update fs.nodes node zero_node) k
        (λ e. ground (arith, open_k, subst (λ j. is_node_open fds fs j ≡ false) e closed)) g;
}

module _ {D : Type 0} (dev : BlockDev D) where
  -- `nodefs_unlink` keeps the tree and every open file.
  pub nodefs_unlink_lem :
      (fds : FdTable) (fs : Nodefs) (disk : D) (path : List ℕ)
      → IsTree fs.nodes
      → KeepsOpen fds fs (nodefs_unlink dev fds fs disk path).1
  unfolding nodefs_unlink
  nodefs_unlink_lem fds fs disk path t =
      let same = Keeps→KeepsOpen fds fs fs (Keeps-refl fs t) in
      elim (Option-cases (resolve_path fs.nodes path)) [
        | inl e ↦ rw (e, nodefs_unlink) same
        | inr (node, e) ↦ elim (Bool-cases (node == 0)) [
          | inl z ↦ rw (e, nodefs_unlink, z) same
          | inr z ↦ elim (Bool-cases ((fs.nodes node).type == type_file)) [
            | inr d ↦ rw (e, nodefs_unlink, z, d) same
            | inl d ↦ elim (Bool-cases (is_node_open fds fs node)) [
              | inl o ↦ rw (e, nodefs_unlink, z, d, o) same
              | inr o ↦
                  let u = resolve_path-IsUsed fs.nodes path node t e in
                  rw (e, nodefs_unlink, z, d, o, synced_instance dev tt (drop_node fs node) disk)
                    (KeepsOpen-dropped fds fs node t (used-IsFile fs.nodes node t u (ground arith))
                      o)
            ]
          ]
        ]
      ]
