-- ===== src/VclServer/Pool/Alloc.antt =====
-- What conn_pool_alloc of src/vcl-test-server/main.c gives.
use dpdk_perf.Common.{
  ℕ, suc, ◌+◌, ◌*◌, ◌≡◌, refl, sym, ap, subst, ◌⊎◌, inl, inr, Bool, true, false, Option, none, some,
  List, [], ◌∷◌, ◌++◌, arith, if◌then◌else◌, length, replicate, All, Bool-cases,
}
use dpdk_perf.VclServer.Pool.{Cfg, Conn, new_conn, take_free, conn_pool_alloc}

-- How many connections are in use.
unfoldable pub in_use : List Conn → ℕ
in_use [] = 0
in_use (c ∷ pool) = (if c.is_alloc then 1 else 0) + in_use pool

-- Every connection is in use.
abbrev pub IsFull : List Conn → Type 0
IsFull pool = All (λ (c : Conn). c.is_alloc ≡ true) pool

abbrev pub taken : Conn → Conn
taken c = record c { is_alloc = true }

module _ (cfg : Cfg) (buf_size : ℕ) where
  take_free_full : (i : ℕ) (pool : List Conn) → IsFull pool → take_free cfg buf_size i pool ≡ none
  unfolding take_free
  take_free_full i [] full = refl
  take_free_full i (c ∷ pool) full = ground (arith, full.0, take_free_full (i + 1) pool full.1)

  take_free_split :
      (i : ℕ) (xs : List Conn) (c : Conn) (ys : List Conn)
      → IsFull xs
      → c.is_alloc ≡ false
      → take_free cfg buf_size i (xs ++ (c ∷ ys)) ≡ some (i + length xs, xs ++ (taken c ∷ ys))
  unfolding take_free
  take_free_split i [] c ys full free = ground (arith, free)
  take_free_split i (x ∷ xs) c ys full free =
      ground (arith, full.0, take_free_split (i + 1) xs c ys full.1 free)

  -- The first free connection, if there is one.
  split_free :
      (pool : List Conn)
      → IsFull pool
        ⊎ ((xs : List Conn) × (c : Conn) × (ys : List Conn) × (pool ≡ xs ++ (c ∷ ys))
            × IsFull xs
            × (c.is_alloc ≡ false))
  split_free [] = inl tt
  split_free (c ∷ pool) = elim (Bool-cases c.is_alloc) [
    | inl used ↦ elim (split_free pool) [
      | inl full ↦ inl (used, full)
      | inr (xs, d, ys, e, full, free) ↦ inr (c ∷ xs, d, ys, ap (◌∷◌ c) e, (used, full), free)
    ]
    | inr free ↦ inr ([], c, pool, refl, tt, free)
  ]

  -- What conn_pool_alloc may do with a pool: take its first free connection and touch no other;
  -- grow a full pool to three times its size and take the first new one; or fail, and leave the
  -- pool as it is, only if it is full and has no memory to grow or nothing to triple.
  pub data Alloc (memory : Bool) (pool : List Conn) : Option ℕ × List Conn → Type 0 where
    reused :
        (xs : List Conn) (c : Conn) (ys : List Conn)
        → pool ≡ xs ++ (c ∷ ys)
        → IsFull xs
        → c.is_alloc ≡ false
        → Alloc memory pool (some (length xs), xs ++ (taken c ∷ ys))
    grown :
        (n : ℕ)
        → IsFull pool
        → memory ≡ true
        → suc n ≡ 2 * length pool
        → Alloc memory pool (
          some (length pool),
          pool ++ (taken (new_conn cfg buf_size) ∷ replicate n (new_conn cfg buf_size)),
        )
    refused : IsFull pool → (memory ≡ false) ⊎ (pool ≡ []) → Alloc memory pool (none, pool)

  alloc_reused :
      (memory : Bool) (pool xs : List Conn) (c : Conn) (ys : List Conn)
      → pool ≡ xs ++ (c ∷ ys)
      → IsFull xs
      → c.is_alloc ≡ false
      → conn_pool_alloc cfg buf_size memory pool ≡ (some (length xs), xs ++ (taken c ∷ ys))
  unfolding conn_pool_alloc
  alloc_reused memory pool xs c ys e full free =
      let n : 0 + length xs ≡ length xs = omega arith in
      rw e (rw (conn_pool_alloc, take_free_split 0 xs c ys full free, n))

  alloc_grown :
      (pool : List Conn) (n : ℕ)
      → IsFull pool
      → 2 * length pool ≡ suc n
      → let new = new_conn cfg buf_size in
        conn_pool_alloc cfg buf_size true pool
        ≡ (some (length pool), pool ++ (taken new ∷ replicate n new))
  unfolding conn_pool_alloc
  alloc_grown pool n full e =
      let new = new_conn cfg buf_size in
      let z : 0 + length pool ≡ length pool = omega arith in
      rw (
        conn_pool_alloc,
        take_free_full 0 pool full,
        e,
        take_free_split 0 pool new (replicate n new) full refl,
        z,
      )

  alloc_refused :
      (memory : Bool) (pool : List Conn)
      → IsFull pool
      → (memory ≡ false) ⊎ (pool ≡ [])
      → conn_pool_alloc cfg buf_size memory pool ≡ (none, pool)
  unfolding conn_pool_alloc
  alloc_refused memory pool full (inl e) = ground (arith, e, take_free_full 0 pool full)
  alloc_refused true pool full (inr e) = rw e refl
  alloc_refused false pool full (inr e) = rw e refl

  full_Alloc :
      (memory : Bool) (pool : List Conn)
      → IsFull pool
      → Alloc memory pool (conn_pool_alloc cfg buf_size memory pool)
  full_Alloc false pool full =
      subst (Alloc false pool) (sym (alloc_refused false pool full (inl refl)))
        (refused full (inl refl))
  full_Alloc true [] full =
      subst (Alloc true []) (sym (alloc_refused true [] full (inr refl))) (refused full (inr refl))
  full_Alloc true (c ∷ pool) full =
      let n : ℕ = 2 * length pool + 1 in
      let e : 2 * length (c ∷ pool) ≡ suc n = omega arith in
      subst (Alloc true (c ∷ pool)) (sym (alloc_grown (c ∷ pool) n full e))
        (grown n full refl (sym e))

  -- With every pool conn_pool_alloc takes the first free connection and touches no other, or grows
  -- a full pool to three times its size and takes the first new one, or fails and leaves the pool
  -- as it is; it fails only for a full pool, when memory is short or the pool is empty.
  pub conn_pool_alloc-Alloc :
      (memory : Bool) (pool : List Conn)
      → Alloc memory pool (conn_pool_alloc cfg buf_size memory pool)
  conn_pool_alloc-Alloc memory pool = elim (split_free pool) [
    | inr (xs, c, ys, e, full, free) ↦
        subst (Alloc memory pool) (sym (alloc_reused memory pool xs c ys e full free))
          (reused xs c ys e full free)
    | inl full ↦ full_Alloc memory pool full
  ]
