-- ===== src/Fs/Serve/Opens.antt =====
-- The table of open files of fs/server.c.
use riem_os.Base.{
  ℕ, zero, suc, ◌+◌, ◌*◌, ◌%◌, ◌^◌, ◌≤◌, ◌<◌, ◌≡◌, ◌≢◌, ◌⊎◌, refl, sym, Bool-cases, inl, inr, ◌==◌,
  ==_iff, arith,
}
use riem_os.Base.Int.{neg}
use riem_os.Memory.Pte.{page_size, mask_v, mask_r}
use riem_os.Fs.{Os, Server, Open, Outcome, returned, failed, panicked, e_max_open, e_inval, mask_g}
use riem_os.Fs.Serve.{maxopen, fileva, init_from, serve_init, open_lookup}

-- Entry `i` has ids that are `i` modulo MAXOPEN, and its own page.
pub record IsEntry (o : Open) (i : ℕ) : Type 0 where
  pub own_id : o.o_fileid % maxopen ≡ i
  pub word : o.o_fileid < 2 ^ 32
  pub own_page : o.o_ff ≡ fileva + i * page_size

abbrev pub IsTable : (ℕ → Open) → Type 0
IsTable tab = (i : ℕ) → i < maxopen → IsEntry (tab i) i

init_from-set :
    (n i va : ℕ) (tab : ℕ → Open) (k : ℕ)
    → va ≡ fileva + i * page_size
    → i + n ≤ maxopen
    → IsEntry (tab k) k ⊎ ((i ≤ k) × (k < i + n))
    → IsEntry (init_from n i va tab k) k
unfolding init_from
init_from-set zero i va tab k e h (inl done) = done
init_from-set zero i va tab k e h (inr (low, high)) = absurd (omega arith)
init_from-set (suc n) i va tab k e h c =
    init_from-set n (i + 1) _ _ k (omega arith) (omega arith) (elim (Bool-cases (i == k)) [
      | inl same ↦
          let at : k ≡ i = sym ((==_iff i k).0 same) in
          inl
            (rw same (record { own_id = omega arith; word = omega arith; own_page = omega arith }))
      | inr other ↦ elim c [
        | inl done ↦ inl (rw other done)
        | inr (low, high) ↦ inr (ground arith, omega arith)
      ]
    ])

module _ {W : Type 0} (os : Os W) where
  pub serve_init-IsTable :
      (s : Server W) → (s' : Server W) × (serve_init os s ≡ returned tt s') × IsTable s'.opentab
  unfolding serve_init
  serve_init-IsTable s = (
    record s { opentab = init_from maxopen 0 fileva s.opentab },
    refl,
    λ i h.
        init_from-set maxopen 0 fileva s.opentab i (omega arith) (omega arith) (inr (omega arith)),
  )

  -- The count of the page of entry `i`.
  abbrev pub page_ref : Server W → ℕ → ℕ
  page_ref s i = os.get_physical_page_ref s.world (s.opentab i).o_ff

  -- Entry `i` is the first whose page no client has.
  abbrev pub IsFirst : Server W → ℕ → Type 0
  IsFirst s i = (i < maxopen) × (page_ref s i ≤ 1) × ((k : ℕ) → k < i → 2 ≤ page_ref s k)

  abbrev pub Opens : Server W → Outcome W (ℕ × ℕ) → Type 0
  Opens s (returned (i, id) s') =
      IsFirst s i
      × ((s'.opentab i).o_fileid ≡ id)
      × ((k : ℕ) → k ≢ i → s'.opentab k ≡ s.opentab k)
      × IsTable s'.opentab
      × ((w : W)
          → os.get_physical_page_ref w (s.opentab i).o_ff ≢ 1
          → open_lookup os id (record s' { world = w }) ≡ returned i (record s' { world = w }))
      × (open_lookup os (s.opentab i).o_fileid s' ≡ failed e_inval s')
  Opens s (failed e s') =
      (s'.opentab ≡ s.opentab)
      × (((e ≡ e_max_open) × ((k : ℕ) → k < maxopen → 2 ≤ page_ref s k))
          ⊎ ((i : ℕ) × IsFirst s i
              × ((os.memory_alloc s.world (s.opentab i).o_ff (mask_v + mask_r + mask_g)).0
                  ≡ neg e)))
  Opens s panicked = ⊥

  -- The entry that `open_entry` leaves.
  abbrev renewed : Open → Open
  renewed o = record o { o_fileid = (o.o_fileid + maxopen) % 2 ^ 32 }
