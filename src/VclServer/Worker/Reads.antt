-- ===== src/VclServer/Worker/Reads.antt =====
-- What the data and the hang-up of a session do to the sessions that a worker of
-- src/vcl-test-server/main.c serves.
use dpdk_perf.Common.{
  ℕ, zero, suc, ◌≡◌, refl, ap, ◌∙◌, Bool, true, false, ◌&&◌, ◌||◌, some, List, [], ◌∷◌, arith,
  if◌then◌else◌, get_elem?, set, ◌==◌, Bool-cases, inl, inr,
}
use dpdk_perf.Common.Int.{ℤ, pos, negsuc}
use dpdk_perf.VclServer.Pool.{Conn, Timespec, uni, bi}
use dpdk_perf.VclServer.Server.{Worker, TestLib, vts_conn_expect_config, is_test}
use dpdk_perf.VclServer.Loop.{
  Setup, Answers, Event, Read, Ends, next, fail, vts_server_rx, read_again, on_conn, on_data,
  has_ascii,
}
use dpdk_perf.VclServer.Worker.Sessions.{IsServed, shut-Serves, count_open-shut}
use dpdk_perf.VclServer.Worker.Outcomes.{
  Outcome, kept, broke, idle-left, put-IsServed, put-IsLike, IsLike, handle_cfg-Outcome,
}

module _ (lib : TestLib) (setup : Setup) (wrk : Worker) (bs : List Bool) (i fd : ℕ)
    (open_i : get_elem? bs i ≡ some true) where
  -- What vts_server_rx leaves of a connection, and of the worker but for what it writes.
  rx_keeps :
      (now : Timespec) (n : ℕ) (r : Read) (conn : Conn) (u : Worker)
      → let x = vts_server_rx lib setup now n r conn u in
        (x.0.is_alloc ≡ conn.is_alloc)
        × (x.0.fd ≡ conn.fd)
        × (x.1.conn_pool ≡ u.conn_pool)
        × (x.1.nfds ≡ u.nfds)
        × (x.1.closed ≡ u.closed)
  unfolding vts_server_rx
  rx_keeps now n r conn u = ground arith

  -- What is known of a connection while its reads are handled.
  record Reading (conn : Conn) (u : Worker) : Type 0 where
    served : IsServed u bs
    same : IsLike wrk u
    used : conn.is_alloc ≡ true
    its_fd : conn.fd ≡ fd

  on_data-Outcome :
      (again : Conn → Worker → Ends) (now : Timespec) (n : ℕ) (r : Read) (conn : Conn) (u : Worker)
      → ((c : Conn) (w : Worker) → Reading c w → Outcome wrk bs i fd false (again c w))
      → Reading conn u
      → Outcome wrk bs i fd false (on_data lib setup again now i n r conn u)
  unfolding on_data
  on_data-Outcome again now n r conn u more g =
      elim (Bool-cases (vts_conn_expect_config conn && r.rx_cfg.magic == setup.ctrl_magic)) [
        | inl e ↦ rw e (
            handle_cfg-Outcome lib setup wrk bs i fd open_i setup.cfg_size n now conn r.rx_cfg u
              g.served g.same g.used g.its_fd)
        | inr e ↦ elim (Bool-cases (is_test conn.cfg.test uni || is_test conn.cfg.test bi)) [
          | inl f ↦
              let k = rx_keeps now n r conn u in
              let x = vts_server_rx lib setup now n r conn u in
              let w = record x.1 { conn_pool = set x.1.conn_pool i x.0 } in
              let g' : Reading x.0 w = record {
                served =
                    put-IsServed lib setup wrk bs i fd open_i u w x.0 g.served (k.0 ∙ g.used)
                      (ap (λ p. set p i x.0) k.2) k.3;
                same =
                    put-IsLike lib setup wrk bs i fd open_i u w x.0 g.served g.same (k.0 ∙ g.used)
                      (ap (λ p. set p i x.0) k.2) k.4;
                used = k.0 ∙ g.used;
                its_fd = k.1 ∙ g.its_fd;
              } in
              elim (Bool-cases r.more) [
                | inl h ↦ rw (e, f, h) (more x.0 w g')
                | inr h ↦ rw (e, f, h) (kept w g'.served g'.same)
              ]
          | inr f ↦ elim (Bool-cases (has_ascii r.buf)) [
            | inl h ↦
                rw (e, f, h)
                  (kept _
                    (put-IsServed lib setup wrk bs i fd open_i u _ _ g.served g.used refl refl)
                    (put-IsLike lib setup wrk bs i fd open_i u _ _ g.served g.same g.used refl
                      refl))
            | inr h ↦ rw (e, f, h) (kept u g.served g.same)
          ]
        ]
      ]

  no_data-Outcome :
      (r : Read) (u : Worker)
      → IsServed u bs
      → IsLike wrk u
      → Outcome wrk bs i fd false (if r.reset then fail u else next u)
  no_data-Outcome r u v same = elim (Bool-cases r.reset) [
    | inl e ↦ rw e (broke u v same)
    | inr e ↦ rw e (kept u v same)
  ]

  read_again-Outcome :
      (now : Timespec) (rs : List Read) (conn : Conn) (u : Worker)
      → Reading conn u
      → Outcome wrk bs i fd false (read_again lib setup now i rs conn u)
  unfolding read_again
  read_again-Outcome now [] conn u g = kept u g.served g.same
  read_again-Outcome now (r ∷ rs) conn u g = go r.rx_bytes refl (read_again-Outcome now rs)
    where
      go :
          (x : ℤ)
          → r.rx_bytes ≡ x
          → ((c : Conn) (w : Worker)
              → Reading c w
              → Outcome wrk bs i fd false (read_again lib setup now i rs c w))
          → Outcome wrk bs i fd false (read_again lib setup now i (r ∷ rs) conn u)
      go (negsuc e) q more = rw (q, read_again) (no_data-Outcome r u g.served g.same)
      go (pos zero) q more = rw (q, read_again) (no_data-Outcome r u g.served g.same)
      go (pos (suc m)) q more =
          let c = record conn { stats = r.stats } in
          let w = record u { conn_pool = set u.conn_pool i c } in
          let g' : Reading c w = record {
            served = put-IsServed lib setup wrk bs i fd open_i u w c g.served g.used refl refl;
            same = put-IsLike lib setup wrk bs i fd open_i u w c g.served g.same g.used refl refl;
            used = g.used;
            its_fd = g.its_fd;
          } in
          rw (q, read_again)
            (on_data-Outcome (read_again lib setup now i rs) now (suc m) r c w more g')

  pub on_conn-Outcome :
      (a : Answers) (e : Event) (conn : Conn)
      → e.place ≡ i
      → IsServed wrk bs
      → conn.is_alloc ≡ true
      → conn.fd ≡ fd
      → Outcome wrk bs i fd e.hup (on_conn lib setup a e conn wrk)
  unfolding on_conn
  on_conn-Outcome a e conn at v used f = elim (Bool-cases e.hup) [
    | inl h ↦ rw h (
        idle-left lib setup wrk bs i fd open_i true _
          (record {
            serves = shut-Serves wrk.conn_pool bs i v.serves;
            counted = omega (arith, v.counted, v.few, count_open-shut bs i open_i);
            few = omega (arith, v.few, count_open-shut bs i open_i);
          })
          (record { closed = ap (λ n. n ∷ wrk.closed) f; in_use = omega arith }))
    | inr h ↦ elim (Bool-cases e.epollin) [
      | inl k ↦
          rw (h, k, at)
            (read_again-Outcome a.now a.reads conn wrk (record {
              served = v;
              same = record { closed = refl; in_use = refl };
              used = used;
              its_fd = f;
            }))
      | inr k ↦ rw (h, k) (broke wrk v (record { closed = refl; in_use = refl }))
    ]
  ]
