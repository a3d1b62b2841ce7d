-- ===== src/Fs/Lookup.antt =====
-- The nodes of one block that `dir_lookup` of fs/fs.c looks through.
pub mod Files
use riem_os.Base.{
  ℕ, zero, suc, ◌+◌, ◌-◌, ◌*◌, ◌/◌, ◌%◌, ◌^◌, ◌≤◌, ◌<◌, ◌≡◌, ◌≢◌, ◌⊎◌, refl, ◌∙◌, sym, ap, subst,
  Bool, true, false, ◌||◌, ◌&&◌, not, Bool-cases, inl, inr, ◌==◌, ==_ne, ==_iff, arith,
  if◌then◌else◌, ltb, leb, Option, none, some,
}
use riem_os.Base.Int.{ℤ, pos, negsuc, is_nonzero}
use riem_os.Memory.Ram.{Bytes, load32, store64}
use riem_os.Ulib.{strcmp}
use riem_os.Fs.{
  Os, Server, Outcome, returned, failed, panicked, Run, memory, with_memory, ◌>>=◌, ◌>>◌, pure,
  fail, peek, poke, and_then, diskmap, by2blk, by2file, file2blk, ndirect, maxnamelen, e_not_found,
}
use riem_os.Fs.Blocks.{s_nblocks, is_marked, block_is_mapped, block_is_free, diskaddr, read_block}
use riem_os.Fs.Nodes.{
  f_size, f_direct, f_dir, file_block_walk, file_map_block, file_get_block, lookup_block,
  lookup_from, dir_lookup, same_name, poke64,
}
use riem_os.Fs.Free.{diskaddr-below, block_is_mapped-below}

nonzero-cases : (r : ℤ) → ((is_nonzero r ≡ true) × (r ≢ pos 0)) ⊎ (r ≡ pos 0)
nonzero-cases (pos zero) = inr refl
nonzero-cases (pos (suc n)) = inl (refl, λ e. cc)
nonzero-cases (negsuc n) = inl (refl, λ e. cc)

pub and-false : (a : Bool) → (a && false) ≡ false
and-false true = refl
and-false false = refl

some-injective : {A : Type 0} {a b : A} → some a ≡ some b → a ≡ b
some-injective e = cc

module _ {W : Type 0} (os : Os W) where
  -- The node at `p` has the name at `name`.
  abbrev pub IsNamed : Server W → ℕ → ℕ → Type 0
  IsNamed s name p = strcmp maxnamelen (memory os s) name p ≡ some (pos 0)

  -- The name and that of each of `n` nodes from `f` on end, so that they can be compared.
  abbrev pub IsComparable : Server W → ℕ → ℕ → ℕ → Type 0
  IsComparable s name f n =
      (j : ℕ) → j < n → (r : ℤ) × (strcmp maxnamelen (memory os s) name (f + by2file * j) ≡ some r)

  -- The server once node `p` has been found in `dir`.
  abbrev pub found_state : Server W → ℕ → ℕ → Server W
  found_state s dir p = with_memory os s (store64 (memory os s) (f_dir p) dir)

  -- The first of `n` nodes from `f` on with the name, or none.
  abbrev pub FindsNode : Server W → ℕ → ℕ → ℕ → ℕ → Outcome W (Option ℕ) → Type 0
  FindsNode s dir name f n (returned (some p) s') =
      (j : ℕ) × (j < n)
      × (p ≡ f + by2file * j)
      × IsNamed s name p
      × ((i : ℕ) → i < j → ¬ IsNamed s name (f + by2file * i))
      × (s' ≡ found_state s dir p)
  FindsNode s dir name f n (returned none s') =
      (s' ≡ s) × ((i : ℕ) → i < n → ¬ IsNamed s name (f + by2file * i))
  FindsNode s dir name f n (failed e s') = ⊥
  FindsNode s dir name f n panicked = ⊥

  others :
      (s : Server W) (name f f' n : ℕ)
      → f' ≡ f + by2file
      → ¬ IsNamed s name f
      → ((i : ℕ) → i < n → ¬ IsNamed s name (f' + by2file * i))
      → (i : ℕ) → i < suc n
      → ¬ IsNamed s name (f + by2file * i)
  others s name f f' n e other rest zero h named =
      other (subst (IsNamed s name) (omega arith) named)
  others s name f f' n e other rest (suc i) h named =
      rest i (omega arith) (subst (IsNamed s name) (omega arith) named)

  FindsNode-later :
      (s : Server W) (dir name f f' n : ℕ) (r : Outcome W (Option ℕ))
      → f' ≡ f + by2file
      → ¬ IsNamed s name f
      → FindsNode s dir name f' n r
      → FindsNode s dir name f (suc n) r
  FindsNode-later s dir name f f' n (returned (some p) s') e other (j, h, at, named, first, st) =
      (suc j, omega arith, omega (arith, at), named, others s name f f' j e other first, st)
  FindsNode-later s dir name f f' n (returned none s') e other (st, none_named) =
      (st, others s name f f' n e other none_named)
  FindsNode-later s dir name f f' n (failed x s') e other h = h
  FindsNode-later s dir name f f' n panicked e other h = h

  lookup_block-suc :
      (n dir name f : ℕ) (s : Server W) (r : ℤ)
      → strcmp maxnamelen (memory os s) name f ≡ some r
      → lookup_block os (suc n) dir name f s ≡ (
          if is_nonzero r
          then lookup_block os n dir name (f + by2file) s
          else returned (some f) (found_state s dir f))
  unfolding lookup_block
  lookup_block-suc n dir name f s r e =
      rw e (elim (Bool-cases (is_nonzero r)) [ inl d ↦ rw d refl | inr d ↦ rw d refl ])

  pub lookup_block-FindsNode :
      (n dir name f : ℕ) (s : Server W)
      → IsComparable s name f n
      → FindsNode s dir name f n (lookup_block os n dir name f s)
  unfolding lookup_block
  lookup_block-FindsNode zero dir name f s cmp = (refl, λ i h. absurd (omega arith))
  lookup_block-FindsNode (suc n) dir name f s cmp =
      let (r, at) = cmp 0 (omega arith) in
      let here : strcmp maxnamelen (memory os s) name f ≡ some r =
        subst (λ p. strcmp maxnamelen (memory os s) name p ≡ some r) (omega arith) at in
      elim (nonzero-cases r) [
        | inl (differs, other) ↦
            rw (lookup_block-suc n dir name f s r here, differs)
              (FindsNode-later s dir name f (f + by2file) n _ refl
                (λ named. other (some-injective (sym here ∙ named)))
                (lookup_block-FindsNode n dir name (f + by2file) s (λ j h.
                  let (q, e) = cmp (suc j) (omega arith) in
                  (
                    q,
                    subst (λ p. strcmp maxnamelen (memory os s) name p ≡ some q) (omega arith) e,
                  ))))
        | inr same ↦
            rw (lookup_block-suc n dir name f s r here, ap is_nonzero same)
              (0, omega arith, omega arith, here ∙ ap some same, λ i h. absurd (omega arith), refl)
      ]
