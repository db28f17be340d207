-- ===== src/UdpEcho/Data.antt =====
-- A pool and a hash table that meet the interfaces of UdpEcho/Vpp, and the state of
-- src/udp-echo/main.c without sessions.
use dpdk_perf.Common.{
  ℕ, zero, suc, ◌+◌, ◌-◌, ◌^◌, ◌≡◌, refl, Bool, true, false, Option, none, some, List, [], ◌∷◌,
  ◌++◌, arith, ◌==◌, if◌then◌else◌, length, get_or, set, get_or_beyond,
}
use dpdk_perf.UdpEcho.Vpp.{PoolOps, HashOps}
use dpdk_perf.UdpEcho.Session.{AppSession, zeroed, EchoMain, start}

abbrev pub table : HashOps
table = record {
  Hash = ℕ → Option ℕ;
  empty = λ k. none;
  get = λ h k. h k;
  set = λ h k v j. if k == j then some v else h j;
  unset = λ h k j. if k == j then none else h j;
  get-empty = λ k. refl;
  get-set = λ h k j v. refl;
  get-unset = λ h k j. refl;
}

pub record Slots : Type 0 where
  pub used : List Bool
  pub contents : ℕ → AppSession

abbrev pub count_used : List Bool → ℕ
count_used [] = 0
count_used (true ∷ bs) = suc (count_used bs)
count_used (false ∷ bs) = count_used bs

pub fresh : (bs : List Bool) → get_or bs (length bs) false ≡ false
fresh bs = get_or_beyond bs (length bs) false (omega arith)

pub used-snoc :
    (bs : List Bool) (i : ℕ)
    → get_or (bs ++ (true ∷ [])) i false ≡ (if length bs == i then true else get_or bs i false)
used-snoc [] zero = refl
used-snoc [] (suc i) = ground arith
used-snoc (b ∷ bs) zero = ground arith
used-snoc (b ∷ bs) (suc i) = ground (arith, used-snoc bs i)

pub used-set :
    (bs : List Bool) (i j : ℕ)
    → get_or (set bs i false) j false ≡ (if i == j then false else get_or bs j false)
used-set [] i j = ground arith
used-set (b ∷ bs) zero zero = ground arith
used-set (b ∷ bs) zero (suc j) = ground arith
used-set (b ∷ bs) (suc i) zero = ground arith
used-set (b ∷ bs) (suc i) (suc j) = ground (arith, used-set bs i j)

pub count_used-snoc : (bs : List Bool) → count_used (bs ++ (true ∷ [])) ≡ count_used bs + 1
count_used-snoc [] = refl
count_used-snoc (true ∷ bs) = omega (arith, count_used-snoc bs)
count_used-snoc (false ∷ bs) = count_used-snoc bs

pub count_used-set :
    (bs : List Bool) (i : ℕ)
    → get_or bs i false ≡ true
    → count_used (set bs i false) + 1 ≡ count_used bs
count_used-set [] i h = cc
count_used-set (true ∷ bs) zero h = omega arith
count_used-set (false ∷ bs) zero h = cc
count_used-set (true ∷ bs) (suc i) h = omega (arith, count_used-set bs i h)
count_used-set (false ∷ bs) (suc i) h = count_used-set bs i h

abbrev pub pool : PoolOps AppSession
pool = record {
  Pool = Slots;
  empty = record { used = []; contents = λ i. zeroed };
  live = λ p i. get_or p.used i false;
  elt = λ p i. p.contents i;
  elts = λ p. count_used p.used;
  get = λ p. (record p { used = p.used ++ (true ∷ []) }, length p.used);
  put = λ p i. record p { used = set p.used i false };
  write = λ p i a. record p { contents = λ j. if i == j then a else p.contents j };
  live-empty = λ i. refl;
  elts-empty = refl;
  get_fresh = λ p. fresh p.used;
  live-get = λ p i. used-snoc p.used i;
  elt-get = λ p i h. refl;
  elts-get = λ p. count_used-snoc p.used;
  live-put = λ p i j. used-set p.used i j;
  elt-put = λ p i j h. refl;
  elts-put = λ p i h. count_used-set p.used i h;
  live-write = λ p i j a. refl;
  elt-write = λ p i j a. refl;
  elts-write = λ p i a. refl;
}

abbrev pub idle : EchoMain pool table
idle = record {
  state = start;
  sessions = record { used = []; contents = λ i. zeroed };
  session_index_by_vpp_handles = λ k. none;
  vpp_event_queue = 0;
  cut_through_session_index = 2 ^ 32 - 1;
  connected_session = 0;
  is_connected = false;
  client_session_index = λ i. 0;
  sent = [];
}
