-- ===== src/VclServer/Worker/Places.antt =====
-- Places of the pool of a worker of src/vcl-test-server/main.c that are taken, and the sessions of the
-- other places.
use dpdk_perf.Common.{
  ℕ, zero, suc, ◌+◌, ◌≡◌, refl, ap, Bool, true, false, some, List, [], ◌∷◌, ◌++◌, arith, length,
  get_elem?, set, replicate,
}
use dpdk_perf.VclServer.Pool.{Conn}
use dpdk_perf.VclServer.Pool.Alloc.{taken}
use dpdk_perf.VclServer.Server.{update_fd}
use dpdk_perf.VclServer.Worker.Sessions.{Serves, count_open}

pub count_open-append :
    (bs : List Bool) (k : ℕ) → count_open (bs ++ replicate k false) ≡ count_open bs
count_open-append [] zero = refl
count_open-append [] (suc k) = count_open-append [] k
count_open-append (true ∷ bs) k = ap suc (count_open-append bs k)
count_open-append (false ∷ bs) k = count_open-append bs k

pub count_open-join :
    (bs : List Bool) (i : ℕ)
    → get_elem? bs i ≡ some false
    → count_open (set bs i true) ≡ count_open bs + 1
count_open-join [] i h = absurd (ground (arith, h))
count_open-join (true ∷ bs) zero h = absurd (ground (arith, h))
count_open-join (false ∷ bs) zero h = omega arith
count_open-join (true ∷ bs) (suc i) h = omega (arith, count_open-join bs i h)
count_open-join (false ∷ bs) (suc i) h = count_open-join bs i h

Serves-append :
    (pool more : List Conn) (bs cs : List Bool)
    → Serves pool bs
    → Serves more cs
    → Serves (pool ++ more) (bs ++ cs)
Serves-append [] more [] cs v w = w
Serves-append [] more (b ∷ bs) cs v w = absurd v
Serves-append (c ∷ pool) more [] cs v w = absurd v
Serves-append (c ∷ pool) more (b ∷ bs) cs v w = (v.0, Serves-append pool more bs cs v.1 w)

pub Serves-replicate : (n : ℕ) (c : Conn) → Serves (replicate n c) (replicate n false)
Serves-replicate zero c = tt
Serves-replicate (suc n) c = (λ e. absurd (ground (arith, e)), Serves-replicate n c)

-- A place of a pool that is in use and holds no session.
pub record Placed (pool : List Conn) (cs : List Bool) (i : ℕ) : Type 0 where
  pub serves : Serves pool cs
  pub shut : get_elem? cs i ≡ some false
  pub used : (c : Conn) × (get_elem? pool i ≡ some c) × (c.is_alloc ≡ true)

pub reused-Placed :
    (xs : List Conn) (c : Conn) (ys : List Conn) (bs : List Bool)
    → Serves (xs ++ (c ∷ ys)) bs
    → c.is_alloc ≡ false
    → Placed (xs ++ (taken c ∷ ys)) bs (length xs)
reused-Placed [] c ys [] v free = absurd v
reused-Placed [] c ys (true ∷ bs) v free = absurd (ground (arith, v.0 refl, free))
reused-Placed [] c ys (false ∷ bs) v free = record {
  serves = (λ _. refl, v.1);
  shut = refl;
  used = (taken c, refl, refl);
}
reused-Placed (x ∷ xs) c ys [] v free = absurd v
reused-Placed (x ∷ xs) c ys (b ∷ bs) v free =
    let p = reused-Placed xs c ys bs v.1 free in
    record { serves = (v.0, p.serves); shut = p.shut; used = p.used }

pub grown-Placed :
    (pool : List Conn) (bs : List Bool) (c : Conn) (n : ℕ)
    → Serves pool bs
    → Placed (pool ++ (taken c ∷ replicate n c)) (bs ++ replicate (suc n) false) (length pool)
grown-Placed [] [] c n v = record {
  serves = (λ _. refl, Serves-replicate n c);
  shut = refl;
  used = (taken c, refl, refl);
}
grown-Placed [] (b ∷ bs) c n v = absurd v
grown-Placed (x ∷ pool) [] c n v = absurd v
grown-Placed (x ∷ pool) (b ∷ bs) c n v =
    let p = grown-Placed pool bs c n v.1 in
    record { serves = (v.0, p.serves); shut = p.shut; used = p.used }

pub update_fd-Serves :
    (pool : List Conn) (cs : List Bool) (i fd : ℕ)
    → Serves pool cs
    → Serves (update_fd pool i fd) cs
unfolding update_fd
update_fd-Serves [] [] i fd v = tt
update_fd-Serves [] (b ∷ cs) i fd v = absurd v
update_fd-Serves (c ∷ pool) [] i fd v = absurd v
update_fd-Serves (c ∷ pool) (b ∷ cs) zero fd v = v
update_fd-Serves (c ∷ pool) (b ∷ cs) (suc i) fd v = (v.0, update_fd-Serves pool cs i fd v.1)

pub joined-Serves :
    (pool : List Conn) (cs : List Bool) (i fd : ℕ) (c : Conn)
    → Serves pool cs
    → get_elem? pool i ≡ some c
    → c.is_alloc ≡ true
    → Serves (update_fd pool i fd) (set cs i true)
unfolding update_fd
joined-Serves [] [] i fd c v at used = tt
joined-Serves [] (b ∷ cs) i fd c v at used = absurd v
joined-Serves (x ∷ pool) [] i fd c v at used = absurd v
joined-Serves (x ∷ pool) (b ∷ cs) zero fd c v at used = (λ _. ground (arith, at, used), v.1)
joined-Serves (x ∷ pool) (b ∷ cs) (suc i) fd c v at used =
    (v.0, joined-Serves pool cs i fd c v.1 at used)
