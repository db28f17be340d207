-- ===== src/VclServer/Worker/Trace.antt =====
-- A worker of src/vcl-test-server/main.c over any sequence of events.
use dpdk_perf.Common.{
  ℕ, ◌+◌, ◌^◌, ◌<◌, ◌≡◌, refl, sym, ap, subst, ◌∙◌, Bool, true, false, ◌&&◌, not, some, List, arith,
  if◌then◌else◌, length, get_elem?, set, ◌==◌, inl, inr, ◌⊎◌,
}
use dpdk_perf.VclServer.Pool.{conn_pool_alloc}
use dpdk_perf.VclServer.Server.{Worker, TestLib}
use dpdk_perf.VclServer.Loop.{
  Setup, Answers, Event, Ends, next, done, fail, fault, listener, on_event,
}
use dpdk_perf.VclServer.Worker.Sessions.{count_open, IsServed, open-used}
use dpdk_perf.VclServer.Worker.Outcomes.{Outcome, kept, broke, left, last}
use dpdk_perf.VclServer.Worker.Reads.{on_conn-Outcome}
use dpdk_perf.VclServer.Worker.Arrivals.{sessions_with, new_client-IsServed, new_client-closed}

module _ (lib : TestLib) (setup : Setup) where
  -- A readiness of the listener.
  abbrev pub is_listener : Event → Bool
  is_listener e = e.place == listener && not e.hup

  -- epoll reports the listener, with room for one more session among 2 ^ 32 - 1, or a session that
  -- is open.
  abbrev pub IsReported : Event → List Bool → Type 0
  IsReported e bs =
      ((is_listener e ≡ true) × (count_open bs + 1 < 2 ^ 32))
      ⊎ ((is_listener e ≡ false) × (get_elem? bs e.place ≡ some true))

  abbrev pub worker_of : Ends → Worker → Worker
  worker_of (next w) old = w
  worker_of (done w) old = w
  worker_of (fail w) old = w
  worker_of fault old = old

  -- The open sessions after an event: a client that is accepted and added joins, and a session that
  -- the server closes goes.
  abbrev pub sessions_after : Answers → Event → Worker → List Bool → List Bool
  sessions_after a e wrk bs =
      if is_listener e
      then sessions_with (conn_pool_alloc setup.new_cfg setup.new_buf_size a.memory wrk.conn_pool)
          a.accepted a.added bs
      else if length (worker_of (on_event lib setup a e wrk) wrk).closed == length wrk.closed
      then bs
      else set bs e.place false

  -- The worker serves the sessions bs; one that is done has none left.
  abbrev pub EndsWell : List Bool → Ends → Type 0
  EndsWell bs (next w) = IsServed w bs
  EndsWell bs (done w) = IsServed w bs × (count_open bs ≡ 0)
  EndsWell bs (fail w) = IsServed w bs
  EndsWell bs fault = ⊥

  -- A worker that goes on after it has closed a session has another one open.
  abbrev pub GoesOn : ℕ → List Bool → Ends → Type 0
  GoesOn closed bs (next w) = (length w.closed ≡ closed) ⊎ (0 < count_open bs)
  GoesOn closed bs _ = Unit {0}

  abbrev pub Served : ℕ → List Bool → Ends → Type 0
  Served closed bs o = EndsWell bs o × GoesOn closed bs o

  outcome-Served :
      (wrk : Worker) (bs : List Bool) (i fd : ℕ) (lost : Bool) (o : Ends)
      → Outcome wrk bs i fd lost o
      → Served
          (length wrk.closed)
          (if length (worker_of o wrk).closed == length wrk.closed then bs else set bs i false)
          o
  outcome-Served wrk bs i fd lost o (kept w v same) =
      let e : (length w.closed == length wrk.closed) ≡ true =
        ground (arith, ap length same.closed) in
      rw e (v, inl (ap length same.closed))
  outcome-Served wrk bs i fd lost o (broke w v same) =
      let e : (length w.closed == length wrk.closed) ≡ true =
        ground (arith, ap length same.closed) in
      rw e (v, tt)
  outcome-Served wrk bs i fd lost o (left _ w v gone some_left) =
      let e : (length w.closed == length wrk.closed) ≡ false =
        ground (arith, ap length gone.closed) in
      rw e (v, inr (subst (λ n. 0 < n) v.counted some_left))
  outcome-Served wrk bs i fd lost o (last _ w v gone none_left) =
      let e : (length w.closed == length wrk.closed) ≡ false =
        ground (arith, ap length gone.closed) in
      rw e ((v, sym v.counted ∙ none_left), tt)

  -- An event of an open session.
  pub on_session-Outcome :
      (a : Answers) (e : Event) (wrk : Worker) (bs : List Bool)
      → is_listener e ≡ false
      → get_elem? bs e.place ≡ some true
      → IsServed wrk bs
      → (fd : ℕ) × Outcome wrk bs e.place fd e.hup (on_event lib setup a e wrk)
  unfolding on_event
  on_session-Outcome a e wrk bs is opened v =
      let (c, at, used) = open-used wrk.conn_pool bs e.place v.serves opened in
      (
        c.fd,
        rw (is, at) (on_conn-Outcome lib setup wrk bs e.place c.fd opened a e c refl v used refl),
      )

  on_session-Served :
      (a : Answers) (e : Event) (wrk : Worker) (bs : List Bool)
      → is_listener e ≡ false
      → get_elem? bs e.place ≡ some true
      → IsServed wrk bs
      → Served (length wrk.closed) (sessions_after a e wrk bs) (on_event lib setup a e wrk)
  on_session-Served a e wrk bs is opened v =
      let (fd, o) = on_session-Outcome a e wrk bs is opened v in
      rw is (outcome-Served wrk bs e.place fd e.hup _ o)

  -- An event that epoll may report, with room for another session among 2 ^ 32 - 1 if it is a new
  -- client, never makes the worker touch a place outside its pool. After it nfds is the number of
  -- open sessions, each at a place of the pool that is in use, if that was so before; the worker
  -- is done only if no session is open, and if it has closed a session and none is open it does
  -- not go on.
  pub on_event-Served :
      (a : Answers) (e : Event) (wrk : Worker) (bs : List Bool)
      → IsReported e bs
      → IsServed wrk bs
      → Served (length wrk.closed) (sessions_after a e wrk bs) (on_event lib setup a e wrk)
  unfolding on_event
  on_event-Served a e wrk bs (inl (is, room)) v =
      let same =
        new_client-closed setup.new_cfg setup.new_buf_size a.memory a.added a.accepted wrk in
      rw is (
        new_client-IsServed setup.new_cfg setup.new_buf_size a.memory a.added a.accepted wrk bs v
            room,
        inl (ap length same),
      )
  on_event-Served a e wrk bs (inr (is, opened)) v = on_session-Served a e wrk bs is opened v
