-- ===== src/VclServer/Pool/Used.antt =====
-- The number of places in use of the pool of src/vcl-test-server/main.c, when a connection of it is
-- taken, written or given back.
use dpdk_perf.Common.{
  ℕ, zero, suc, ◌+◌, ◌≡◌, refl, Bool, true, false, Option, none, some, List, [], ◌∷◌, ◌++◌, arith,
  get_elem?, set, replicate,
}
use dpdk_perf.VclServer.Pool.{Cfg, Conn, new_conn}
use dpdk_perf.VclServer.Pool.Alloc.{in_use, taken, Alloc, reused, grown, refused}

in_use-append : (xs ys : List Conn) → in_use (xs ++ ys) ≡ in_use xs + in_use ys
unfolding in_use
in_use-append [] ys = omega arith
in_use-append (x ∷ xs) ys = omega (arith, in_use-append xs ys)

pub in_use-new : (cfg : Cfg) (size n : ℕ) → in_use (replicate n (new_conn cfg size)) ≡ 0
unfolding in_use new_conn
in_use-new cfg size zero = refl
in_use-new cfg size (suc n) = omega (arith, in_use-new cfg size n)

-- A place that conn_pool_alloc gives is one more in use.
pub Alloc-in_use :
    (cfg : Cfg) (size : ℕ) (memory : Bool) (pool pool' : List Conn) (i : ℕ)
    → (r : Option ℕ × List Conn) → r ≡ (some i, pool')
    → Alloc cfg size memory pool r
    → in_use pool' ≡ in_use pool + 1
unfolding in_use
Alloc-in_use cfg size memory pool pool' i r e (reused xs c ys split full free) =
    ground (arith, in_use-append xs (c ∷ ys), in_use-append xs (taken c ∷ ys), free)
Alloc-in_use cfg size memory pool pool' i r e (grown n full m k) = ground (
  arith,
  in_use-append pool (taken (new_conn cfg size) ∷ replicate n (new_conn cfg size)),
  in_use-new cfg size n,
)
Alloc-in_use cfg size memory pool pool' i r e (refused full why) = ground arith

pub in_use-refused :
    (cfg : Cfg) (size : ℕ) (memory : Bool) (pool pool' : List Conn)
    → (r : Option ℕ × List Conn) → r ≡ (none, pool')
    → Alloc cfg size memory pool r
    → in_use pool' ≡ in_use pool
in_use-refused cfg size memory pool pool' r e (reused xs c ys split full free) = ground arith
in_use-refused cfg size memory pool pool' r e (grown n full m k) = ground arith
in_use-refused cfg size memory pool pool' r e (refused full why) = ground arith

-- A connection in use is written and stays in use.
pub in_use-set :
    (pool : List Conn) (i : ℕ) (c c' : Conn)
    → get_elem? pool i ≡ some c
    → c.is_alloc ≡ true
    → c'.is_alloc ≡ true
    → in_use (set pool i c') ≡ in_use pool
unfolding in_use
in_use-set [] i c c' h u f = ground (arith, h)
in_use-set (x ∷ pool) zero c c' h u f = ground (arith, h, u, f)
in_use-set (x ∷ pool) (suc i) c c' h u f = ground (arith, in_use-set pool i c c' h u f)

-- It is given back.
pub in_use-free :
    (pool : List Conn) (i : ℕ) (c c' : Conn)
    → get_elem? pool i ≡ some c
    → c.is_alloc ≡ true
    → c'.is_alloc ≡ false
    → in_use (set pool i c') + 1 ≡ in_use pool
unfolding in_use
in_use-free [] i c c' h u f = ground (arith, h)
in_use-free (x ∷ pool) zero c c' h u f = ground (arith, h, u, f)
in_use-free (x ∷ pool) (suc i) c c' h u f = ground (arith, in_use-free pool i c c' h u f)
