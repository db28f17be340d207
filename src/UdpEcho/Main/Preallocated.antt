-- ===== src/UdpEcho/Main/Preallocated.antt =====
-- The sessions that main of src/udp-echo/main.c gets and puts back before it runs the server.
use dpdk_perf.Common.{
  ℕ, zero, suc, ◌+◌, ◌<◌, ◌≡◌, refl, sym, subst, true, false, ◌&&◌, ltb, leb, arith,
}
use dpdk_perf.UdpEcho.Vpp.{PoolOps, HashOps}
use dpdk_perf.UdpEcho.Session.{AppSession, zeroed}
use dpdk_perf.UdpEcho.Main.{get_sessions, put_sessions, preallocate}

module _ (P : PoolOps AppSession) (H : HashOps) where
  -- One more turn of the first loop.
  get_sessions-last :
      (n : ℕ) (p : P.Pool)
      → let q = get_sessions P H n p in
        get_sessions P H (suc n) p ≡ P.write (P.get q).0 (P.get q).1 zeroed
  unfolding get_sessions
  get_sessions-last zero p = refl
  get_sessions-last (suc n) p = get_sessions-last n (P.write (P.get p).0 (P.get p).1 zeroed)

  -- The indices from i to j are those in use.
  record Holds (i j : ℕ) (p : P.Pool) : Type 0 where
    elts : P.elts p + i ≡ j
    live : (k : ℕ) → P.live p k ≡ (leb i k && ltb k j)

  get-Holds :
      (j : ℕ) (p : P.Pool)
      → (P.get p).1 ≡ j
      → Holds 0 j p
      → Holds 0 (suc j) (P.write (P.get p).0 (P.get p).1 zeroed)
  get-Holds j p e h = record {
    elts = omega (arith, P.elts-write (P.get p).0 (P.get p).1 zeroed, P.elts-get p, h.elts);
    live = λ k.
        ground (arith, P.live-write (P.get p).0 (P.get p).1 k zeroed, P.live-get p k, h.live k, e);
  }

  all-Holds :
      (n : ℕ)
      → ((k : ℕ) → k < n → (P.get (get_sessions P H k P.empty)).1 ≡ k)
      → Holds 0 n (get_sessions P H n P.empty)
  unfolding get_sessions
  all-Holds zero next = record {
    elts = omega (arith, P.elts-empty);
    live = λ k. ground (arith, P.live-empty k);
  }
  all-Holds (suc n) next =
      let h = all-Holds n (λ k l. next k (omega arith)) in
      subst (Holds 0 (suc n)) (sym (get_sessions-last n P.empty))
        (get-Holds n (get_sessions P H n P.empty) (next n (omega arith)) h)

  put-Holds : (i j : ℕ) (p : P.Pool) → i < j → Holds i j p → Holds (suc i) j (P.put p i)
  put-Holds i j p l h =
      let here : P.live p i ≡ true = ground (arith, h.live i) in
      record {
        elts = omega (arith, P.elts-put p i here, h.elts);
        live = λ k. ground (arith, P.live-put p i k, h.live k);
      }

  none-Holds :
      (n i j : ℕ) (p : P.Pool) → n + i ≡ j → Holds i j p → Holds j j (put_sessions P H n i p)
  unfolding put_sessions
  none-Holds zero i j p e h = subst (λ k. Holds k j p) (omega (arith, e)) h
  none-Holds (suc n) i j p e h =
      let h' : Holds (i + 1) j (P.put p i) =
        subst (λ k. Holds k j (P.put p i)) (omega arith) (put-Holds i j p (omega (arith, e)) h) in
      none-Holds n (i + 1) j (P.put p i) (omega (arith, e)) h'

  -- If a pool that was empty and from which k elements were got, none put back, gives the index k
  -- next, for each k below n, then the two loops of main over n sessions put back exactly the sessions
  -- that they got: no index is in use after them.
  pub preallocate-free :
      (n : ℕ)
      → ((k : ℕ) → k < n → (P.get (get_sessions P H k P.empty)).1 ≡ k)
      → (P.elts (preallocate P H n P.empty) ≡ 0)
        × ((i : ℕ) → P.live (preallocate P H n P.empty) i ≡ false)
  preallocate-free n next =
      let h = none-Holds n 0 n (get_sessions P H n P.empty) (omega arith) (all-Holds n next) in
      (omega (arith, h.elts), λ i. ground (arith, h.live i))
