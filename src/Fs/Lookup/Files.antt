-- ===== src/Fs/Lookup/Files.antt =====
-- What `dir_lookup` of fs/fs.c finds in a directory whose blocks are direct and in memory.
use riem_os.Base.{
  lt-ltb, leb-lt, ℕ, zero, suc, ◌+◌, ◌*◌, ◌/◌, ◌%◌, ◌^◌, ◌≤◌, ◌<◌, ◌≡◌, ◌≢◌, refl, ◌∙◌, sym, ap,
  subst, false, ◌||◌, ◌&&◌, not, Bool-cases, inl, inr, ◌==◌, ==_ne, ==_iff, arith, leb, Option,
  none, some,
}
use riem_os.Memory.Ram.{load32}
use riem_os.Ulib.Text.{strcmp-Stops}
use riem_os.Strings.{difference}
use riem_os.Fs.{
  Os, Server, Outcome, returned, failed, panicked, Run, memory, pure, and_then, diskmap, by2blk,
  by2file, file2blk, ndirect, maxnamelen, e_not_found,
}
use riem_os.Fs.Blocks.{s_nblocks, is_marked, block_is_free, read_block}
use riem_os.Fs.Nodes.{
  f_size, f_direct, file_block_walk, file_map_block, file_get_block, lookup_from, dir_lookup,
}
use riem_os.Fs.Free.{diskaddr-below, block_is_mapped-below}
use riem_os.Fs.Lookup.{
  IsNamed, IsComparable, found_state, FindsNode, lookup_block-FindsNode, and-false,
}

module _ {W : Type 0} (os : Os W) where
  abbrev pub block_address : ℕ → ℕ
  block_address b = (diskmap + b * by2blk) % 2 ^ 32

  -- The `i`-th block of a file: it is direct, allocated and in memory.
  pub record IsResident (s : Server W) (f i : ℕ) : Type 0 where
    pub direct : i < ndirect
    pub there : load32 (memory os s) (f_direct f i) ≢ 0
    pub on_disk : load32 (memory os s) (f_direct f i) < s_nblocks os s
    pub used : is_marked os s (load32 (memory os s) (f_direct f i)) ≡ false
    pub mapped :
        os.check_va_is_map s.world (block_address (load32 (memory os s) (f_direct f i))) ≢ 0
    pub small : block_address (load32 (memory os s) (f_direct f i)) ≢ 0

  -- The address of the block.
  abbrev pub block_at : Server W → ℕ → ℕ → ℕ
  block_at s f i = block_address (load32 (memory os s) (f_direct f i))

  block_is_free-used :
      (b : ℕ) (s : Server W) → is_marked os s b ≡ false → block_is_free os b s ≡ returned false s
  unfolding block_is_free
  block_is_free-used b s used = elim (Bool-cases (s.super == 0 || leb (s_nblocks os s) b)) [
    | inl out ↦ rw out refl
    | inr inside ↦ rw (inside, used) refl
  ]

  -- Reading a block that is in memory leaves everything as it is.
  read_block-resident :
      (b : ℕ) (s : Server W)
      → b < s_nblocks os s
      → is_marked os s b ≡ false
      → os.check_va_is_map s.world (block_address b) ≢ 0
      → block_address b ≢ 0
      → read_block os b s ≡ returned (block_address b, false) s
  unfolding read_block
  read_block-resident b s below used mapped small =
      let le : b ≤ s_nblocks os s = omega arith in
      let guard : (not (s.super == 0) && leb (s_nblocks os s) b) ≡ false =
        ap (λ t. not (s.super == 0) && t) (leb-lt (s_nblocks os s) b below)
        ∙ and-false (not (s.super == 0)) in
      elim (Bool-cases (s.bitmap == 0)) [
        | inl z ↦
            rw
              (
                guard,
                z,
                diskaddr-below os b s le,
                block_is_mapped-below os b s le mapped,
                ==_ne (block_address b) 0 small,
              )
              refl
        | inr z ↦
            rw
              (
                guard,
                z,
                block_is_free-used b s used,
                diskaddr-below os b s le,
                block_is_mapped-below os b s le mapped,
                ==_ne (block_address b) 0 small,
              )
              refl
      ]

  file_get_block-resident :
      (f i : ℕ) (s : Server W)
      → IsResident s f i
      → file_get_block os f i s ≡ returned (block_at s f i) s
  unfolding file_get_block file_map_block file_block_walk
  file_get_block-resident f i s r =
      let b : ℕ = load32 (memory os s) (f_direct f i) in
      rw
        (
          lt-ltb i ndirect r.direct,
          ==_ne b 0 r.there,
          read_block-resident b s r.on_disk r.used r.mapped r.small,
        )
        refl

  -- Node `j` of block `i`.
  abbrev pub node_at : Server W → ℕ → ℕ → ℕ → ℕ
  node_at s dir i j = block_at s dir i + by2file * j

  -- The first node with the name, block after block, or E_NOT_FOUND where there is none.
  abbrev pub FindsFile : Server W → ℕ → ℕ → ℕ → ℕ → Outcome W ℕ → Type 0
  FindsFile s dir name from to (returned p s') =
      (i : ℕ) × (j : ℕ) × (from ≤ i)
      × (i < to)
      × (j < file2blk)
      × (p ≡ node_at s dir i j)
      × IsNamed os s name p
      × ((k : ℕ) → k < j → ¬ IsNamed os s name (node_at s dir i k))
      × ((h k : ℕ) → from ≤ h → h < i → k < file2blk → ¬ IsNamed os s name (node_at s dir h k))
      × (s' ≡ found_state os s dir p)
  FindsFile s dir name from to (failed e s') =
      (e ≡ e_not_found)
      × (s' ≡ s)
      × ((i j : ℕ) → from ≤ i → i < to → j < file2blk → ¬ IsNamed os s name (node_at s dir i j))
  FindsFile s dir name from to panicked = ⊥

  FindsFile-earlier :
      (s : Server W) (dir name i to : ℕ) (r : Outcome W ℕ)
      → ((k : ℕ) → k < file2blk → ¬ IsNamed os s name (node_at s dir i k))
      → FindsFile s dir name (i + 1) to r
      → FindsFile s dir name i to r
  FindsFile-earlier s dir name i to (returned p s') none_here
        (h, j, low, high, in_block, at, named, first, before, st) =
      (
        h,
        j,
        omega arith,
        high,
        in_block,
        at,
        named,
        first,
        λ g k from until below. elim (Bool-cases (g == i)) [
          | inl e ↦
              subst (λ t. ¬ IsNamed os s name (node_at s dir t k)) (sym ((==_iff g i).0 e))
                (none_here k below)
          | inr e ↦ before g k (ground arith) until below
        ],
        st,
      )
  FindsFile-earlier s dir name i to (failed e s') none_here (code, st, none_later) = (
    code,
    st,
    λ g k from until below. elim (Bool-cases (g == i)) [
      | inl e' ↦
          subst (λ t. ¬ IsNamed os s name (node_at s dir t k)) (sym ((==_iff g i).0 e'))
            (none_here k below)
      | inr e' ↦ none_later g k (ground arith) until below
    ],
  )
  FindsFile-earlier s dir name i to panicked none_here h = h

  in_block :
      (n dir name i : ℕ) (s : Server W) (o : Outcome W (Option ℕ))
      → FindsNode os s dir name (block_at s dir i) file2blk o
      → FindsFile s dir name (i + 1) (i + suc n) (lookup_from os n dir name (i + 1) s)
      → FindsFile s dir name i (i + suc n) (
          and_then o (λ found. elim found as (λ _. Run W ℕ) [
            | some f ↦ pure f
            | none ↦ lookup_from os n dir name (i + 1)
          ]))
  in_block n dir name i s (returned (some p) s') (j, h, at, named, first, st) later = (
    i,
    j,
    omega arith,
    omega arith,
    h,
    at,
    named,
    first,
    λ g k from until below. absurd (omega arith),
    st,
  )
  in_block n dir name i s (returned none s') (st, none_named) later =
      rw st (FindsFile-earlier s dir name i (i + suc n) _ none_named later)
  in_block n dir name i s (failed e s') h later = absurd h
  in_block n dir name i s panicked h later = absurd h

  lookup_from-FindsFile :
      (n dir name i : ℕ) (s : Server W)
      → ((k : ℕ) → i ≤ k → k < i + n → IsResident s dir k)
      → ((k : ℕ) → i ≤ k → k < i + n → IsComparable os s name (block_at s dir k) file2blk)
      → FindsFile s dir name i (i + n) (lookup_from os n dir name i s)
  unfolding lookup_from
  lookup_from-FindsFile zero dir name i s res cmp =
      (refl, refl, λ k j low high h. absurd (omega arith))
  lookup_from-FindsFile (suc n) dir name i s res cmp =
      rw (file_get_block-resident dir i s (res i (omega arith) (omega arith))) (
        in_block n dir name i s _
          (lookup_block-FindsNode os file2blk dir name (block_at s dir i) s
            (cmp i (omega arith) (omega arith)))
          (subst (λ t. FindsFile s dir name (i + 1) t (lookup_from os n dir name (i + 1) s))
            (omega arith)
            (lookup_from-FindsFile n dir name (i + 1) s
              (λ k low high. res k (omega arith) (omega arith))
              (λ k low high. cmp k (omega arith) (omega arith)))))

  -- The string at `name`, of length `k`, is short enough for a node.
  abbrev pub IsName : Server W → ℕ → ℕ → Type 0
  IsName s name k =
      (k < maxnamelen)
      × (memory os s (name + k) ≡ 0)
      × ((j : ℕ) → j < k → memory os s (name + j) ≢ 0)

  -- It can be compared with what any nodes hold.
  IsName-IsComparable :
      (s : Server W) (name k f n : ℕ) → IsName s name k → IsComparable os s name f n
  IsName-IsComparable s name k f n (short, ends, inside) j h =
      let (i, low, agree, stop, result) =
        strcmp-Stops maxnamelen (memory os s) name (f + by2file * j) k short ends inside in
      (difference (memory os s (name + i)) (memory os s (f + by2file * j + i)), result)

  -- `dir_lookup` in a directory whose blocks are direct, allocated and in memory, for a name that ends
  -- within MAXNAMELEN bytes: it does not panic; it returns the first node, block after block and node
  -- after node, that `strcmp` finds equal to the name, having set the `f_dir` of that node to the
  -- directory and nothing else; and it fails only with E_NOT_FOUND, on the state it was called in, where
  -- no node of the directory has the name.
  pub dir_lookup-FindsFile :
      (dir name k : ℕ) (s : Server W)
      → ((i : ℕ) → i < load32 (memory os s) (f_size dir) / by2blk → IsResident s dir i)
      → IsName s name k
      → FindsFile s dir name 0
          (load32 (memory os s) (f_size dir) / by2blk)
          (dir_lookup os dir name s)
  unfolding dir_lookup
  dir_lookup-FindsFile dir name k s res named =
      let nblock : ℕ = load32 (memory os s) (f_size dir) / by2blk in
      subst (λ t. FindsFile s dir name 0 t (lookup_from os nblock dir name 0 s)) (omega arith)
        (lookup_from-FindsFile nblock dir name 0 s (λ i low high. res i (omega arith))
          (λ i low high. IsName-IsComparable s name k (block_at s dir i) file2blk named))
