-- ===== src/VclServer/Worker/Lost.antt =====
-- The places of its pool that a worker of src/vcl-test-server/main.c loses: they are in use while no
-- session is counted for them.
use dpdk_perf.Common.{
  ℕ, zero, suc, ◌+◌, ◌^◌, ◌<◌, ◌≡◌, refl, subst, Bool, true, false, Option, none, some, List, [],
  ◌∷◌, arith, if◌then◌else◌, inl, inr, get_elem?, Bool-cases,
}
use dpdk_perf.Common.Int.{ℤ, pos, negsuc}
use dpdk_perf.VclServer.Pool.{Cfg, Conn, conn_pool_alloc}
use dpdk_perf.VclServer.Pool.Alloc.{in_use, Alloc, conn_pool_alloc-Alloc}
use dpdk_perf.VclServer.Pool.Used.{Alloc-in_use, in_use-refused}
use dpdk_perf.VclServer.Server.{Worker, TestLib, vts_new_client, update_fd, place_client}
use dpdk_perf.VclServer.Loop.{Setup, Answers, Event, Ends, next, done, fail, fault, on_event}
use dpdk_perf.VclServer.Options.{Proto}
use dpdk_perf.VclServer.Worker.{
  Wait, broken, timed_out, ready, is_datagram, dispatch, on_events, vts_worker_loop,
}
use dpdk_perf.VclServer.Worker.Sessions.{IsServed, count_open-shut}
use dpdk_perf.VclServer.Worker.Outcomes.{Outcome, kept, broke, left, last}
use dpdk_perf.VclServer.Worker.Trace.{is_listener, IsReported, EndsWell, on_session-Outcome}
use dpdk_perf.VclServer.Worker.Over.{
  AreReported, AllReported, GoesTo, sessions_on, sessions_of, dispatch-EndsWell, on_events-EndsWell,
}

-- What a new client loses: the place that it got, when it is not accepted or not added to epoll.
abbrev pub lost_client : Option ℕ → ℤ → Bool → ℕ
lost_client none accepted added = 0
lost_client (some i) (negsuc e) added = 1
lost_client (some i) (pos fd) false = 1
lost_client (some i) (pos fd) true = 0

in_use-update_fd : (pool : List Conn) (i fd : ℕ) → in_use (update_fd pool i fd) ≡ in_use pool
unfolding in_use update_fd
in_use-update_fd [] i fd = refl
in_use-update_fd (c ∷ pool) zero fd = refl
in_use-update_fd (c ∷ pool) (suc i) fd = omega (arith, in_use-update_fd pool i fd)

-- The places in use are the sessions counted and the n places lost.
abbrev pub Balances : ℕ → Worker → Type 0
Balances n wrk = in_use wrk.conn_pool ≡ wrk.nfds + n

client-Balances :
    (cfg : Cfg) (size : ℕ) (memory added : Bool) (accepted : ℤ) (wrk : Worker) (n : ℕ)
    (o : Option ℕ) (pool : List Conn)
    → Alloc cfg size memory wrk.conn_pool (o, pool)
    → wrk.nfds + 1 < 2 ^ 32
    → Balances n wrk
    → Balances
        (lost_client o accepted added + n)
        (place_client cfg size (o, pool) accepted added wrk)
client-Balances cfg size memory added accepted wrk n none pool a room b =
    ground (arith, in_use-refused cfg size memory wrk.conn_pool pool (none, pool) refl a)
client-Balances cfg size memory added (negsuc e) wrk n (some i) pool a room b =
    ground (arith, Alloc-in_use cfg size memory wrk.conn_pool pool i (some i, pool) refl a)
client-Balances cfg size memory true (pos fd) wrk n (some i) pool a room b = ground (
  arith,
  Alloc-in_use cfg size memory wrk.conn_pool pool i (some i, pool) refl a,
  in_use-update_fd pool i fd,
)
client-Balances cfg size memory false (pos fd) wrk n (some i) pool a room b = ground (
  arith,
  Alloc-in_use cfg size memory wrk.conn_pool pool i (some i, pool) refl a,
  in_use-update_fd pool i fd,
)

-- However the worker ends or goes on.
abbrev pub Balanced : ℕ → Ends → Type 0
Balanced n (next w) = Balances n w
Balanced n (done w) = Balances n w
Balanced n (fail w) = Balances n w
Balanced n fault = ⊥

outcome-Balanced :
    (wrk : Worker) (bs : List Bool) (i fd n : ℕ) (lost : Bool) (o : Ends)
    → get_elem? bs i ≡ some true
    → IsServed wrk bs
    → Balances n wrk
    → Outcome wrk bs i fd lost o
    → Balanced ((if lost then 1 else 0) + n) o
outcome-Balanced wrk bs i fd n lost o h v b (kept w v' like) =
    omega (arith, b, like.in_use, v.counted, v'.counted)
outcome-Balanced wrk bs i fd n lost o h v b (broke w v' like) =
    omega (arith, b, like.in_use, v.counted, v'.counted)
outcome-Balanced wrk bs i fd n lost o h v b (left lost' w v' gone some_left) =
    ground (arith, b, gone.in_use, v.counted, v'.counted, count_open-shut bs i h)
outcome-Balanced wrk bs i fd n lost o h v b (last lost' w v' gone none_left) =
    ground (arith, b, gone.in_use, v.counted, v'.counted, count_open-shut bs i h)

module _ (lib : TestLib) (setup : Setup) where
  -- The places that an event loses: one for a client that got a place and was not accepted or not
  -- added to epoll, and one for a session that hangs up.
  abbrev pub lost_on : Answers → Event → Worker → ℕ
  lost_on a e wrk =
      if is_listener lib setup e
      then lost_client (conn_pool_alloc setup.new_cfg setup.new_buf_size a.memory wrk.conn_pool).0
          a.accepted a.added
      else if e.hup
      then 1
      else 0

  session-Balanced :
      (a : Answers) (e : Event) (wrk : Worker) (bs : List Bool) (n : ℕ)
      → is_listener lib setup e ≡ false
      → get_elem? bs e.place ≡ some true
      → IsServed wrk bs
      → Balances n wrk
      → Balanced (lost_on a e wrk + n) (on_event lib setup a e wrk)
  session-Balanced a e wrk bs n is opened v b =
      let (fd, o) = on_session-Outcome lib setup a e wrk bs is opened v in
      rw is (outcome-Balanced wrk bs e.place fd n e.hup _ opened v b o)

  on_event-Balanced :
      (a : Answers) (e : Event) (wrk : Worker) (bs : List Bool) (n : ℕ)
      → IsReported lib setup e bs
      → IsServed wrk bs
      → Balances n wrk
      → Balanced (lost_on a e wrk + n) (on_event lib setup a e wrk)
  unfolding on_event vts_new_client
  on_event-Balanced a e wrk bs n (inl (is, room)) v b =
      let r = conn_pool_alloc setup.new_cfg setup.new_buf_size a.memory wrk.conn_pool in
      rw is (
        client-Balances setup.new_cfg setup.new_buf_size a.memory a.added a.accepted wrk n r.0 r.1
          (conn_pool_alloc-Alloc setup.new_cfg setup.new_buf_size a.memory wrk.conn_pool)
          (omega (arith, v.counted)) b)
  on_event-Balanced a e wrk bs n (inr (is, opened)) v b =
      session-Balanced a e wrk bs n is opened v b

module _ (lib : TestLib) (setup : Setup) (proto : Proto) where
  -- A datagram loses no place.
  abbrev pub lost_by : Answers → Event → Worker → ℕ
  lost_by a e wrk = if is_datagram proto e then 0 else lost_on lib setup a e wrk

  dispatch-Balanced :
      (a : Answers) (e : Event) (wrk : Worker) (bs : List Bool) (n : ℕ)
      → (is_datagram proto e ≡ false → IsReported lib setup e bs)
      → IsServed wrk bs
      → Balances n wrk
      → Balanced (lost_by a e wrk + n) (dispatch lib setup proto a e wrk)
  unfolding dispatch
  dispatch-Balanced a e wrk bs n r v b = elim (Bool-cases (is_datagram proto e)) [
    | inl q ↦ rw q (omega (arith, b))
    | inr q ↦ rw q (on_event-Balanced lib setup a e wrk bs n (r q) v b)
  ]

  -- The places lost over the events of one wait, and over many waits.
  abbrev pub lost_of : List (Answers × Event) → Worker → ℕ
  lost_of [] wrk = 0
  lost_of ((a, e) ∷ es) wrk = elim (dispatch lib setup proto a e wrk) [
    | next w ↦ lost_of es w + lost_by a e wrk
    | _ ↦ lost_by a e wrk
  ]

  abbrev pub lost_over : List Wait → Worker → ℕ
  lost_over [] wrk = 0
  lost_over (broken ∷ ws) wrk = 0
  lost_over (timed_out ∷ ws) wrk = lost_over ws wrk
  lost_over (ready es ∷ ws) wrk = elim (on_events lib setup proto es wrk) [
    | next w ↦ lost_over ws w + lost_of es wrk
    | _ ↦ lost_of es wrk
  ]

  -- A worker that loses k places and, if it goes on, then more.
  then-Balanced :
      (R : Worker → Type 0) (f : Worker → Ends) (g : Worker → ℕ) (o : Ends) (bs : List Bool)
      (n k : ℕ)
      → EndsWell lib setup bs o
      → Balanced (k + n) o
      → GoesTo lib setup proto R o
      → ((w : Worker) → R w → IsServed w bs → Balances (k + n) w → Balanced (g w + (k + n)) (f w))
      → Balanced
          (elim o [ next w ↦ g w + k | _ ↦ k ] + n)
          (elim o [ next w ↦ f w | done w ↦ done w | fail w ↦ fail w | fault ↦ fault ])
  then-Balanced R f g (next w) bs n k v b r step =
      let e : g w + (k + n) ≡ g w + k + n = omega arith in
      subst (λ m. Balanced m (f w)) e (step w r v b)
  then-Balanced R f g (done w) bs n k v b r step = b
  then-Balanced R f g (fail w) bs n k v b r step = b
  then-Balanced R f g fault bs n k v b r step = v

  on_events-Balanced :
      (es : List (Answers × Event)) (wrk : Worker) (bs : List Bool) (n : ℕ)
      → AreReported lib setup proto es wrk bs
      → IsServed wrk bs
      → Balances n wrk
      → Balanced (lost_of es wrk + n) (on_events lib setup proto es wrk)
  unfolding on_events
  on_events-Balanced [] wrk bs n r v b = omega (arith, b)
  on_events-Balanced ((a, e) ∷ es) wrk bs n r v b =
      let bs' = sessions_on lib setup proto a e wrk bs in
      let k = lost_by a e wrk in
      then-Balanced (λ w. AreReported lib setup proto es w bs') (on_events lib setup proto es)
        (lost_of es) (dispatch lib setup proto a e wrk) bs' n k
        (dispatch-EndsWell lib setup proto a e wrk bs r.0 v)
        (dispatch-Balanced a e wrk bs n r.0 v b) r.1 (λ w. on_events-Balanced es w bs' (k + n))

  pub vts_worker_loop-Balanced :
      (ws : List Wait) (wrk : Worker) (bs : List Bool) (n : ℕ)
      → AllReported lib setup proto ws wrk bs
      → IsServed wrk bs
      → Balances n wrk
      → Balanced (lost_over ws wrk + n) (vts_worker_loop lib setup proto ws wrk)
  unfolding vts_worker_loop
  vts_worker_loop-Balanced [] wrk bs n r v b = omega (arith, b)
  vts_worker_loop-Balanced (broken ∷ ws) wrk bs n r v b = omega (arith, b)
  vts_worker_loop-Balanced (timed_out ∷ ws) wrk bs n r v b =
      vts_worker_loop-Balanced ws wrk bs n r v b
  vts_worker_loop-Balanced (ready es ∷ ws) wrk bs n r v b =
      let bs' = sessions_of lib setup proto es wrk bs in
      let k = lost_of es wrk in
      then-Balanced (λ w. AllReported lib setup proto ws w bs') (vts_worker_loop lib setup proto ws)
        (lost_over ws) (on_events lib setup proto es wrk) bs' n k
        (on_events-EndsWell lib setup proto es wrk bs r.0 v)
        (on_events-Balanced es wrk bs n r.0 v b) r.1
        (λ w. vts_worker_loop-Balanced ws w bs' (k + n))
