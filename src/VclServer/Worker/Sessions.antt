-- ===== src/VclServer/Worker/Sessions.antt =====
-- The sessions that a worker of src/vcl-test-server/main.c serves, one event at a time. Beside the
-- pool stands a list of the same length that says which places hold an open session: one that was
-- accepted and added to epoll, and not closed since.
use dpdk_perf.Common.{
  ℕ, zero, suc, ◌+◌, ◌^◌, ◌<◌, ◌≡◌, refl, Bool, true, false, some, List, [], ◌∷◌, arith, length,
  get_elem?, set,
}
use dpdk_perf.VclServer.Pool.{Conn}
use dpdk_perf.VclServer.Server.{Worker}

-- A session is open only at a place in use.
abbrev pub Serves : List Conn → List Bool → Type 0
Serves [] [] = Unit {0}
Serves [] (b ∷ bs) = ⊥
Serves (c ∷ pool) [] = ⊥
Serves (c ∷ pool) (b ∷ bs) = (b ≡ true → c.is_alloc ≡ true) × Serves pool bs

abbrev pub count_open : List Bool → ℕ
count_open [] = 0
count_open (true ∷ bs) = suc (count_open bs)
count_open (false ∷ bs) = count_open bs

pub record IsServed (wrk : Worker) (bs : List Bool) : Type 0 where
  pub serves : Serves wrk.conn_pool bs
  pub counted : wrk.nfds ≡ count_open bs
  pub few : count_open bs < 2 ^ 32

pub length-Serves : (pool : List Conn) (bs : List Bool) → Serves pool bs → length bs ≡ length pool
length-Serves [] [] v = refl
length-Serves [] (b ∷ bs) v = absurd v
length-Serves (c ∷ pool) [] v = absurd v
length-Serves (c ∷ pool) (b ∷ bs) v = omega (arith, length-Serves pool bs v.1)

-- A connection written at its own place, whether or not its session stays open.
pub set-Serves :
    (pool : List Conn) (bs : List Bool) (i : ℕ) (c : Conn)
    → Serves pool bs
    → c.is_alloc ≡ true
    → Serves (set pool i c) bs
set-Serves [] [] i c v u = tt
set-Serves [] (b ∷ bs) i c v u = absurd v
set-Serves (x ∷ pool) [] i c v u = absurd v
set-Serves (x ∷ pool) (b ∷ bs) zero c v u = (λ _. u, v.1)
set-Serves (x ∷ pool) (b ∷ bs) (suc i) c v u = (v.0, set-Serves pool bs i c v.1 u)

pub shut-Serves :
    (pool : List Conn) (bs : List Bool) (i : ℕ) → Serves pool bs → Serves pool (set bs i false)
shut-Serves [] [] i v = tt
shut-Serves [] (b ∷ bs) i v = absurd v
shut-Serves (x ∷ pool) [] i v = absurd v
shut-Serves (x ∷ pool) (b ∷ bs) zero v = (λ e. absurd (ground (arith, e)), v.1)
shut-Serves (x ∷ pool) (b ∷ bs) (suc i) v = (v.0, shut-Serves pool bs i v.1)

-- The same for a connection that is given back with its session.
pub free-Serves :
    (pool : List Conn) (bs : List Bool) (i : ℕ) (c : Conn)
    → Serves pool bs
    → Serves (set pool i c) (set bs i false)
free-Serves [] [] i c v = tt
free-Serves [] (b ∷ bs) i c v = absurd v
free-Serves (x ∷ pool) [] i c v = absurd v
free-Serves (x ∷ pool) (b ∷ bs) zero c v = (λ e. absurd (ground (arith, e)), v.1)
free-Serves (x ∷ pool) (b ∷ bs) (suc i) c v = (v.0, free-Serves pool bs i c v.1)

pub count_open-shut :
    (bs : List Bool) (i : ℕ)
    → get_elem? bs i ≡ some true
    → count_open (set bs i false) + 1 ≡ count_open bs
count_open-shut [] i h = absurd (ground (arith, h))
count_open-shut (true ∷ bs) zero h = omega arith
count_open-shut (false ∷ bs) zero h = absurd (ground (arith, h))
count_open-shut (true ∷ bs) (suc i) h = omega (arith, count_open-shut bs i h)
count_open-shut (false ∷ bs) (suc i) h = count_open-shut bs i h

-- The connection of an open session.
pub open-used :
    (pool : List Conn) (bs : List Bool) (i : ℕ)
    → Serves pool bs
    → get_elem? bs i ≡ some true
    → (c : Conn) × (get_elem? pool i ≡ some c) × (c.is_alloc ≡ true)
open-used [] [] i v h = absurd (ground (arith, h))
open-used [] (b ∷ bs) i v h = absurd v
open-used (c ∷ pool) [] i v h = absurd v
open-used (c ∷ pool) (b ∷ bs) zero v h = (c, refl, v.0 (ground (arith, h)))
open-used (c ∷ pool) (b ∷ bs) (suc i) v h = open-used pool bs i v.1 h
