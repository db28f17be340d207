-- ===== src/VclServer/Worker/Over.antt =====
-- A worker of src/vcl-test-server/main.c over the events of a wait, and over many waits.
use dpdk_perf.Common.{◌≡◌, Bool, false, List, [], ◌∷◌, if◌then◌else◌, inl, inr, Bool-cases}
use dpdk_perf.VclServer.Options.{Proto}
use dpdk_perf.VclServer.Server.{Worker, TestLib}
use dpdk_perf.VclServer.Loop.{Setup, Answers, Event, Ends, next, done, fail, fault}
use dpdk_perf.VclServer.Worker.{
  Wait, broken, timed_out, ready, is_datagram, dispatch, on_events, vts_worker_loop,
}
use dpdk_perf.VclServer.Worker.Sessions.{IsServed}
use dpdk_perf.VclServer.Worker.Trace.{IsReported, sessions_after, EndsWell, on_event-Served}

module _ (lib : TestLib) (setup : Setup) (proto : Proto) where
  -- The open sessions after an event; a datagram leaves them as they are.
  abbrev pub sessions_on : Answers → Event → Worker → List Bool → List Bool
  sessions_on a e wrk bs = if is_datagram proto e then bs else sessions_after lib setup a e wrk bs

  pub dispatch-EndsWell :
      (a : Answers) (e : Event) (wrk : Worker) (bs : List Bool)
      → (is_datagram proto e ≡ false → IsReported lib setup e bs)
      → IsServed wrk bs
      → EndsWell lib setup (sessions_on a e wrk bs) (dispatch lib setup proto a e wrk)
  unfolding dispatch
  dispatch-EndsWell a e wrk bs r v = elim (Bool-cases (is_datagram proto e)) [
    | inl q ↦ rw q v
    | inr q ↦ rw q ((on_event-Served lib setup a e wrk bs (r q) v).0)
  ]

  -- The sessions over the events of one wait, and over many waits.
  abbrev pub sessions_of : List (Answers × Event) → Worker → List Bool → List Bool
  sessions_of [] wrk bs = bs
  sessions_of ((a, e) ∷ es) wrk bs = elim (dispatch lib setup proto a e wrk) [
    | next w ↦ sessions_of es w (sessions_on a e wrk bs)
    | _ ↦ sessions_on a e wrk bs
  ]

  abbrev pub sessions_over : List Wait → Worker → List Bool → List Bool
  sessions_over [] wrk bs = bs
  sessions_over (broken ∷ ws) wrk bs = bs
  sessions_over (timed_out ∷ ws) wrk bs = sessions_over ws wrk bs
  sessions_over (ready es ∷ ws) wrk bs = elim (on_events lib setup proto es wrk) [
    | next w ↦ sessions_over ws w (sessions_of es wrk bs)
    | _ ↦ sessions_of es wrk bs
  ]

  abbrev pub GoesTo : (Worker → Type 0) → Ends → Type 0
  GoesTo P (next w) = P w
  GoesTo P _ = Unit {0}

  -- Each event is one that epoll may report when it comes.
  abbrev pub AreReported : List (Answers × Event) → Worker → List Bool → Type 0
  AreReported [] wrk bs = Unit {0}
  AreReported ((a, e) ∷ es) wrk bs =
      (is_datagram proto e ≡ false → IsReported lib setup e bs)
      × GoesTo (λ w. AreReported es w (sessions_on a e wrk bs)) (dispatch lib setup proto a e wrk)

  abbrev pub AllReported : List Wait → Worker → List Bool → Type 0
  AllReported [] wrk bs = Unit {0}
  AllReported (broken ∷ ws) wrk bs = Unit {0}
  AllReported (timed_out ∷ ws) wrk bs = AllReported ws wrk bs
  AllReported (ready es ∷ ws) wrk bs =
      AreReported es wrk bs
      × GoesTo (λ w. AllReported ws w (sessions_of es wrk bs)) (on_events lib setup proto es wrk)

  -- A worker that ends well and, if it goes on, goes on to end well.
  then-EndsWell :
      (R : Worker → Type 0) (f : Worker → Ends) (g : Worker → List Bool) (o : Ends) (bs : List Bool)
      → EndsWell lib setup bs o
      → GoesTo R o
      → ((w : Worker) → R w → IsServed w bs → EndsWell lib setup (g w) (f w))
      → EndsWell lib setup
          (elim o [ next w ↦ g w | _ ↦ bs ])
          (elim o [ next w ↦ f w | done w ↦ done w | fail w ↦ fail w | fault ↦ fault ])
  then-EndsWell R f g (next w) bs v r step = step w r v
  then-EndsWell R f g (done w) bs v r step = v
  then-EndsWell R f g (fail w) bs v r step = v
  then-EndsWell R f g fault bs v r step = v

  pub on_events-EndsWell :
      (es : List (Answers × Event)) (wrk : Worker) (bs : List Bool)
      → AreReported es wrk bs
      → IsServed wrk bs
      → EndsWell lib setup (sessions_of es wrk bs) (on_events lib setup proto es wrk)
  unfolding on_events
  on_events-EndsWell [] wrk bs r v = v
  on_events-EndsWell ((a, e) ∷ es) wrk bs r v =
      let bs' = sessions_on a e wrk bs in
      then-EndsWell (λ w. AreReported es w bs') (on_events lib setup proto es)
        (λ w. sessions_of es w bs') (dispatch lib setup proto a e wrk) bs'
        (dispatch-EndsWell a e wrk bs r.0 v) r.1 (λ w. on_events-EndsWell es w bs')

  -- Over any sequence of waits and of events that epoll may report, vts_worker_loop never touches a
  -- place outside its pool. At its end or between two waits nfds is the number of open sessions,
  -- each at a place of the pool that is in use, if that was so at the start, and a worker that is
  -- done has no open session.
  pub vts_worker_loop-EndsWell :
      (ws : List Wait) (wrk : Worker) (bs : List Bool)
      → AllReported ws wrk bs
      → IsServed wrk bs
      → EndsWell lib setup (sessions_over ws wrk bs) (vts_worker_loop lib setup proto ws wrk)
  unfolding vts_worker_loop
  vts_worker_loop-EndsWell [] wrk bs r v = v
  vts_worker_loop-EndsWell (broken ∷ ws) wrk bs r v = v
  vts_worker_loop-EndsWell (timed_out ∷ ws) wrk bs r v = vts_worker_loop-EndsWell ws wrk bs r v
  vts_worker_loop-EndsWell (ready es ∷ ws) wrk bs r v =
      let bs' = sessions_of es wrk bs in
      then-EndsWell (λ w. AllReported ws w bs') (vts_worker_loop lib setup proto ws)
        (λ w. sessions_over ws w bs') (on_events lib setup proto es wrk) bs'
        (on_events-EndsWell es wrk bs r.0 v) r.1 (λ w. vts_worker_loop-EndsWell ws w bs')
