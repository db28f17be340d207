-- ===== src/UdpEcho/Vpp.antt =====
-- What src/udp-echo/main.c takes from vppinfra: pools of elements reached by an index, and hash
-- tables from numbers to numbers. Both are interfaces; the laws are those that their headers
-- document.
use dpdk_perf.Common.{ℕ, ◌+◌, ◌≡◌, ◌≢◌, Bool, true, false, Option, none, some, ◌==◌, if◌then◌else◌}

-- A null pool, pool_get, pool_put, pool_elt_at_index, pool_elts. `live` says that an index is allocated. What
-- an element holds when it is handed out, and after it is put back, is left open.
pub record PoolOps (A : Type 0) : Type 1 where
  pub Pool : Type 0
  pub empty : Pool
  pub live : Pool → ℕ → Bool
  pub elt : Pool → ℕ → A
  pub elts : Pool → ℕ
  pub get : Pool → Pool × ℕ
  pub put : Pool → ℕ → Pool
  pub write : Pool → ℕ → A → Pool
  pub live-empty : (i : ℕ) → live empty i ≡ false
  pub elts-empty : elts empty ≡ 0
  pub get_fresh : (p : Pool) → live p (get p).1 ≡ false
  pub live-get : (p : Pool) (i : ℕ) → live (get p).0 i ≡ (if (get p).1 == i then true else live p i)
  pub elt-get : (p : Pool) (i : ℕ) → live p i ≡ true → elt (get p).0 i ≡ elt p i
  pub elts-get : (p : Pool) → elts (get p).0 ≡ elts p + 1
  pub live-put : (p : Pool) (i j : ℕ) → live (put p i) j ≡ (if i == j then false else live p j)
  pub elt-put : (p : Pool) (i j : ℕ) → i ≢ j → elt (put p i) j ≡ elt p j
  pub elts-put : (p : Pool) (i : ℕ) → live p i ≡ true → elts (put p i) + 1 ≡ elts p
  pub live-write : (p : Pool) (i j : ℕ) (a : A) → live (write p i a) j ≡ live p j
  pub elt-write :
      (p : Pool) (i j : ℕ) (a : A) → elt (write p i a) j ≡ (if i == j then a else elt p j)
  pub elts-write : (p : Pool) (i : ℕ) (a : A) → elts (write p i a) ≡ elts p

-- hash_create, hash_get, hash_set, hash_unset.
pub record HashOps : Type 1 where
  pub Hash : Type 0
  pub empty : Hash
  pub get : Hash → ℕ → Option ℕ
  pub set : Hash → ℕ → ℕ → Hash
  pub unset : Hash → ℕ → Hash
  pub get-empty : (k : ℕ) → get empty k ≡ none
  pub get-set : (h : Hash) (k j v : ℕ) → get (set h k v) j ≡ (if k == j then some v else get h j)
  pub get-unset : (h : Hash) (k j : ℕ) → get (unset h k) j ≡ (if k == j then none else get h j)
