-- ===== src/VclServer/Worker/Outcomes.antt =====
-- What one event of a session does to the sessions that a worker of src/vcl-test-server/main.c
-- serves.
use dpdk_perf.Common.{
  ℕ, ◌<◌, ◌≡◌, refl, ap, ◌∙◌, Bool, true, false, some, List, ◌+◌, if◌then◌else◌, ◌∷◌, arith,
  get_elem?, set, ◌==◌, Bool-cases, inl, inr,
}
use dpdk_perf.VclServer.Pool.{
  Cfg, Conn, Timespec, conn_pool_free, TestType, none_type, echo, uni, bi, exit, other_type,
}
use dpdk_perf.VclServer.Server.{Worker, TestLib, vts_handle_cfg, handle_test, vts_server_start_stop}
use dpdk_perf.VclServer.Loop.{Setup, Ends, next, done, fail, end_if_idle}
use dpdk_perf.VclServer.Pool.Alloc.{in_use}
use dpdk_perf.VclServer.Pool.Used.{in_use-set, in_use-free}
use dpdk_perf.VclServer.Worker.Sessions.{
  IsServed, set-Serves, free-Serves, count_open-shut, open-used,
}

-- Neither a session is closed nor the number of places in use changed.
pub record IsLike (wrk w : Worker) : Type 0 where
  pub closed : w.closed ≡ wrk.closed
  pub in_use : in_use w.conn_pool ≡ in_use wrk.conn_pool

-- The session of fd is closed; its place is given back unless it is lost.
pub record IsWithout (wrk w : Worker) (fd : ℕ) (lost : Bool) : Type 0 where
  pub closed : w.closed ≡ fd ∷ wrk.closed
  pub in_use : in_use w.conn_pool + (if lost then 0 else 1) ≡ in_use wrk.conn_pool

-- The sessions stay as they are, or the session at place i is closed; then the worker ends if it
-- was the last one.
pub data Outcome (wrk : Worker) (bs : List Bool) (i fd : ℕ) : Bool → Ends → Type 0 where
  kept : (w : Worker) → IsServed w bs → IsLike wrk w → Outcome wrk bs i fd false (next w)
  broke : (w : Worker) → IsServed w bs → IsLike wrk w → Outcome wrk bs i fd false (fail w)
  left :
      (lost : Bool) (w : Worker)
      → IsServed w (set bs i false)
      → IsWithout wrk w fd lost
      → 0 < w.nfds
      → Outcome wrk bs i fd lost (next w)
  last :
      (lost : Bool) (w : Worker)
      → IsServed w (set bs i false)
      → IsWithout wrk w fd lost
      → w.nfds ≡ 0
      → Outcome wrk bs i fd lost (done w)

module _ (lib : TestLib) (setup : Setup) (wrk : Worker) (bs : List Bool) (i fd : ℕ)
    (open_i : get_elem? bs i ≡ some true) where
  pub idle-kept :
      (w : Worker)
      → IsServed w bs
      → IsLike wrk w
      → Outcome wrk bs i fd false (end_if_idle lib setup w)
  idle-kept w v same = elim (Bool-cases (w.nfds == 0)) [
    | inl e ↦ absurd (ground (arith, e, v.counted, count_open-shut bs i open_i))
    | inr e ↦ rw e (kept w v same)
  ]

  pub idle-left :
      (lost : Bool) (w : Worker)
      → IsServed w (set bs i false)
      → IsWithout wrk w fd lost
      → Outcome wrk bs i fd lost (end_if_idle lib setup w)
  idle-left lost w v gone = elim (Bool-cases (w.nfds == 0)) [
    | inl e ↦ rw e (last lost w v gone (ground (arith, e)))
    | inr e ↦ rw e (left lost w v gone (ground (arith, e)))
  ]

  -- A handler that writes the session's own connection and nothing else of this.
  pub put-IsServed :
      (u w : Worker) (c : Conn)
      → IsServed u bs
      → c.is_alloc ≡ true
      → w.conn_pool ≡ set u.conn_pool i c
      → w.nfds ≡ u.nfds
      → IsServed w bs
  put-IsServed u w c v used pool fds = record {
    serves = rw pool (set-Serves u.conn_pool bs i c v.serves used);
    counted = fds ∙ v.counted;
    few = v.few;
  }

  pub put-IsLike :
      (u w : Worker) (c : Conn)
      → IsServed u bs
      → IsLike wrk u
      → c.is_alloc ≡ true
      → w.conn_pool ≡ set u.conn_pool i c
      → w.closed ≡ u.closed
      → IsLike wrk w
  put-IsLike u w c v like used pool closed =
      let (x, at, u_used) = open-used u.conn_pool bs i v.serves open_i in
      record {
        closed = closed ∙ like.closed;
        in_use = rw pool (in_use-set u.conn_pool i x c at u_used used ∙ like.in_use);
      }

  start_stop-IsServed :
      (now : Timespec) (conn : Conn) (rx_cfg : Cfg) (u : Worker)
      → IsServed u bs
      → IsLike wrk u
      → conn.is_alloc ≡ true
      → IsServed (vts_server_start_stop lib now i conn rx_cfg u) bs
        × IsLike wrk (vts_server_start_stop lib now i conn rx_cfg u)
  unfolding vts_server_start_stop
  start_stop-IsServed now conn rx_cfg u v like used =
      elim (Bool-cases (rx_cfg.ctrl_handle == conn.fd)) [
        | inl e ↦ rw e (put-IsServed u _ _ v used refl refl, put-IsLike u _ _ v like used refl refl)
        | inr e ↦ rw e (put-IsServed u _ _ v used refl refl, put-IsLike u _ _ v like used refl refl)
      ]

  handle_test-Outcome :
      (now : Timespec) (conn : Conn) (rx_cfg : Cfg) (t : TestType) (u : Worker)
      → IsServed u bs
      → IsLike wrk u
      → conn.is_alloc ≡ true
      → conn.fd ≡ fd
      → Outcome wrk bs i fd false (end_if_idle lib setup (handle_test lib now i conn rx_cfg t u))
  unfolding handle_test conn_pool_free
  handle_test-Outcome now conn rx_cfg none_type u v same used f =
      idle-kept _ (put-IsServed u _ _ v used refl refl) (put-IsLike u _ _ v same used refl refl)
  handle_test-Outcome now conn rx_cfg echo u v same used f =
      idle-kept _ (put-IsServed u _ _ v used refl refl) (put-IsLike u _ _ v same used refl refl)
  handle_test-Outcome now conn rx_cfg bi u v same used f =
      let w = start_stop-IsServed now conn rx_cfg u v same used in idle-kept _ w.0 w.1
  handle_test-Outcome now conn rx_cfg uni u v same used f =
      let w = start_stop-IsServed now conn rx_cfg u v same used in idle-kept _ w.0 w.1
  handle_test-Outcome now conn rx_cfg exit u v same used f =
      idle-left false _
        (record {
          serves = free-Serves u.conn_pool bs i _ v.serves;
          counted = omega (arith, v.counted, v.few, count_open-shut bs i open_i);
          few = omega (arith, v.few, count_open-shut bs i open_i);
        })
        (let (x, at, u_used) = open-used u.conn_pool bs i v.serves open_i in
          record {
            closed = ap (λ n. n ∷ u.closed) f ∙ ap (◌∷◌ fd) same.closed;
            in_use =
                (in_use-free u.conn_pool i x
                    (conn_pool_free (record conn { stats = record conn.stats { stop = now } })) at
                    u_used refl
                  ∙ same.in_use);
          })
  handle_test-Outcome now conn rx_cfg (other_type t) u v same used f = idle-kept u v same

  pub handle_cfg-Outcome :
      (size rx_bytes : ℕ) (now : Timespec) (conn : Conn) (rx_cfg : Cfg) (u : Worker)
      → IsServed u bs
      → IsLike wrk u
      → conn.is_alloc ≡ true
      → conn.fd ≡ fd
      → Outcome wrk bs i fd false
          (end_if_idle lib setup (vts_handle_cfg lib size now i conn rx_cfg rx_bytes u))
  unfolding vts_handle_cfg
  handle_cfg-Outcome size rx_bytes now conn rx_cfg u v same used f =
      elim (Bool-cases (rx_bytes == size)) [
        | inl e ↦ rw e (handle_test-Outcome now conn rx_cfg rx_cfg.test u v same used f)
        | inr e ↦ rw e (
            idle-kept _ (put-IsServed u _ _ v used refl refl)
              (put-IsLike u _ _ v same used refl refl))
      ]
