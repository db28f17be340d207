-- ===== src/VclServer/Worker/Arrivals.antt =====
-- What a new client does to the sessions that a worker of src/vcl-test-server/main.c serves.
use mathlib.Core.List.{append-nil}
use dpdk_perf.Common.{
  ℕ, suc, ◌+◌, ◌-◌, ◌^◌, ◌<◌, ◌≡◌, refl, sym, ap, subst, ◌∙◌, Bool, true, false, Option, none, some,
  List, ◌∷◌, ◌++◌, arith, length, set, replicate, length-append, length-replicate,
}
use dpdk_perf.Common.Int.{ℤ, pos, negsuc}
use dpdk_perf.VclServer.Pool.{Cfg, Conn, new_conn, conn_pool_alloc}
use dpdk_perf.VclServer.Pool.Alloc.{taken, Alloc, reused, grown, refused, conn_pool_alloc-Alloc}
use dpdk_perf.VclServer.Server.{Worker, vts_new_client, update_fd, place_client}
use dpdk_perf.VclServer.Worker.Places.{
  count_open-append, count_open-join, Placed, reused-Placed, grown-Placed, update_fd-Serves,
  joined-Serves,
}
use dpdk_perf.VclServer.Worker.Sessions.{Serves, count_open, IsServed, length-Serves}

-- The sessions once conn_pool_alloc gave a place, and once the client was accepted and added.
abbrev pub joined : Option ℕ → ℤ → Bool → List Bool → List Bool
joined (some i) (pos fd) true cs = set cs i true
joined _ _ _ cs = cs

-- The list of open sessions as long as the pool.
abbrev pub stretch : ℕ → List Bool → List Bool
stretch n bs = bs ++ replicate (n - length bs) false

stretch_same : (n : ℕ) (bs : List Bool) → n ≡ length bs → stretch n bs ≡ bs
stretch_same n bs e =
    let z : n - length bs ≡ 0 = omega (arith, e) in
    ap (λ (k : ℕ). bs ++ replicate k false) z ∙ append-nil bs

-- What conn_pool_alloc gives, over the sessions that are open before.
record Given (r : Option ℕ × List Conn) (bs : List Bool) : Type 0 where
  serves : Serves r.1 (stretch (length r.1) bs)
  placed : (i : ℕ) → r.0 ≡ some i → Placed r.1 (stretch (length r.1) bs) i

at_place-Given :
    (i : ℕ) (pool : List Conn) (bs cs : List Bool)
    → stretch (length pool) bs ≡ cs
    → Placed pool cs i
    → Given (some i, pool) bs
at_place-Given i pool bs cs e p = record {
  serves = rw e p.serves;
  placed = λ j q.
      let same : i ≡ j = ground (arith, q) in
      subst (Placed pool (stretch (length pool) bs)) same (subst (λ l. Placed pool l i) (sym e) p);
}

new_place-Given :
    (cfg : Cfg) (size : ℕ) (memory : Bool) (pool : List Conn) (bs : List Bool)
    → Serves pool bs
    → (r : Option ℕ × List Conn) → Alloc cfg size memory pool r
    → Given r bs
new_place-Given cfg size memory pool bs v r (reused xs c ys e full free) =
    let p = reused-Placed xs c ys bs (subst (λ l. Serves l bs) e v) free in
    at_place-Given _ _ bs bs (stretch_same _ bs (sym (length-Serves _ bs p.serves))) p
new_place-Given cfg size memory pool bs v r (grown n full m k) =
    let new = new_conn cfg size in
    let p = grown-Placed pool bs new n v in
    let old = length-Serves pool bs v in
    let all = length-Serves _ _ p.serves in
    let more : length (pool ++ (taken new ∷ replicate n new)) - length bs ≡ suc n = omega (
      arith,
      old,
      length-append {0} pool (taken new ∷ replicate n new),
      length-replicate {0} n new,
    ) in
    at_place-Given _ _ bs _ (ap (λ (j : ℕ). bs ++ replicate j false) more) p
new_place-Given cfg size memory pool bs v r (refused full why) = record {
  serves = rw (stretch_same (length pool) bs (sym (length-Serves pool bs v))) v;
  placed = λ i q. absurd (ground (arith, q));
}

-- The sessions after vts_new_client.
abbrev pub sessions_with : Option ℕ × List Conn → ℤ → Bool → List Bool → List Bool
sessions_with r accepted added bs = joined r.0 accepted added (stretch (length r.1) bs)

client-IsServed :
    (cfg : Cfg) (size : ℕ) (added : Bool) (accepted : ℤ) (wrk : Worker) (bs : List Bool)
    (o : Option ℕ) (pool : List Conn)
    → Given (o, pool) bs
    → IsServed wrk bs
    → count_open bs + 1 < 2 ^ 32
    → IsServed
        (place_client cfg size (o, pool) accepted added wrk)
        (sessions_with (o, pool) accepted added bs)
client-IsServed cfg size added accepted wrk bs o pool g v room =
    let cs = stretch (length pool) bs in
    let same : count_open cs ≡ count_open bs = count_open-append bs (length pool - length bs) in
    let waits : (p : List Conn) → Serves p cs → IsServed (record wrk { conn_pool = p }) cs =
      λ p w. record { serves = w; counted = v.counted ∙ sym same; few = omega (arith, same) } in
    go o accepted added waits (g.placed)
  where
    go :
        (o' : Option ℕ) (accepted' : ℤ) (added' : Bool)
        → ((p : List Conn)
            → Serves p (stretch (length pool) bs)
            → IsServed (record wrk { conn_pool = p }) (stretch (length pool) bs))
        → ((i : ℕ) → o' ≡ some i → Placed pool (stretch (length pool) bs) i)
        → IsServed
            (place_client cfg size (o', pool) accepted' added' wrk)
            (sessions_with (o', pool) accepted' added' bs)
    go none accepted' added' waits placed = waits pool g.serves
    go (some i) (negsuc e) added' waits placed = waits pool g.serves
    go (some i) (pos fd) false waits placed =
        waits (update_fd pool i fd) (update_fd-Serves pool _ i fd g.serves)
    go (some i) (pos fd) true waits placed =
        let p = placed i refl in
        let cs = stretch (length pool) bs in
        let same : count_open cs ≡ count_open bs = count_open-append bs (length pool - length bs) in
        let more = count_open-join cs i p.shut in
        record {
          serves = joined-Serves pool cs i fd p.used.0 p.serves p.used.1 p.used.2;
          counted = omega (arith, v.counted, same, more);
          few = omega (arith, same, more);
        }

-- A new client, with room for one more session among 2 ^ 32 - 1.
pub new_client-IsServed :
    (cfg : Cfg) (size : ℕ) (memory added : Bool) (accepted : ℤ) (wrk : Worker) (bs : List Bool)
    → IsServed wrk bs
    → count_open bs + 1 < 2 ^ 32
    → IsServed
        (vts_new_client cfg size memory accepted added wrk)
        (sessions_with (conn_pool_alloc cfg size memory wrk.conn_pool) accepted added bs)
unfolding vts_new_client
new_client-IsServed cfg size memory added accepted wrk bs v room =
    let r = conn_pool_alloc cfg size memory wrk.conn_pool in
    client-IsServed cfg size added accepted wrk bs r.0 r.1
      (new_place-Given cfg size memory wrk.conn_pool bs v.serves r
        (conn_pool_alloc-Alloc cfg size memory wrk.conn_pool))
      v room

pub new_client-closed :
    (cfg : Cfg) (size : ℕ) (memory added : Bool) (accepted : ℤ) (wrk : Worker)
    → (vts_new_client cfg size memory accepted added wrk).closed ≡ wrk.closed
unfolding vts_new_client
new_client-closed cfg size memory added accepted wrk =
    go (conn_pool_alloc cfg size memory wrk.conn_pool) accepted added
  where
    go :
        (r : Option ℕ × List Conn) (accepted' : ℤ) (added' : Bool)
        → (place_client cfg size r accepted' added' wrk).closed ≡ wrk.closed
    go (none, pool) accepted' added' = refl
    go (some i, pool) (negsuc e) added' = refl
    go (some i, pool) (pos fd) true = refl
    go (some i, pool) (pos fd) false = refl
