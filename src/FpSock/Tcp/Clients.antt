-- ===== src/FpSock/Tcp/Clients.antt =====
-- The clients that tcp_main of src/fp-sock/tcp-server.c serves, one after the other.
use mathlib.Core.List.{append_assoc, append-nil}
use dpdk_perf.Common.{
  ℕ, ◌≡◌, refl, sym, ap, ◌∙◌, Bool, true, false, Option, none, some, List, [], ◌∷◌, ◌++◌, map,
  arith, ◌==◌, if◌then◌else◌, All, ◌⊎◌, inl, inr,
}
use dpdk_perf.FpSock.Sockets.{Address}
use dpdk_perf.FpSock.Tcp.{Send, Sockets, Client, no_address, Ends, next, minus_one, serve_all}

-- A client that is accepted, with an address of the right size.
abbrev pub IsAccepted : Client → Type 0
IsAccepted c = (fd : ℕ) × (c.accepted ≡ some fd) × (c.addr_sized ≡ true)

-- ofp_close fails for the descriptor -1.
abbrev pub IsAnswered : Client → Type 0
IsAnswered c = (c.closed ≡ false) ⊎ IsAccepted c

abbrev pub IsGood : Client → Type 0
IsGood c = IsAccepted c × (c.closed ≡ true)

-- The descriptor that accept_tcp leaves open.
abbrev pub accepted_fd : Option ℕ → List ℕ
accepted_fd none = []
accepted_fd (some fd) = fd ∷ []

start : (l : List Send) (x : Send) → l ++ (x ∷ []) ≡ (l ++ []) ++ (x ∷ [])
start l x = ap (λ k. k ++ (x ∷ [])) (sym (append-nil l))

joined :
    (l : List Send) (x : Send) (xs : List Send) {k m : List Send}
    → k ≡ l ++ (x ∷ [])
    → m ≡ k ++ xs
    → m ≡ l ++ (x ∷ xs)
joined l x xs e e' = e' ∙ ap (λ j. j ++ xs) e ∙ append_assoc l (x ∷ []) xs

same : (n : ℕ) → (n == n) ≡ true
same n = ground arith

module _ (address_text : Address → List ℕ) where
  -- The call for a client: its own descriptor, its own address, and whether it failed.
  abbrev pub greeting : Client → Send
  greeting c = record { cfd = c.accepted; text = address_text c.addr; ok = c.sent }

  -- The call in the turn that the program ends with.
  abbrev pub last_send : Client → Send
  last_send c =
      let lost : Send = record { cfd = none; text = address_text no_address; ok = c.sent } in
      elim c.accepted [ none ↦ lost | some fd ↦ if c.addr_sized then greeting c else lost ]

  -- A run over the clients cs. A server that waits for another one has accepted them all, called
  -- ofp_send for each with just its own address, in order, and has no more descriptors open than
  -- before. One that has returned
  -- did so for some client, whose descriptor it leaves open if there is one.
  pub data Serves (s : Sockets) (cs : List Client) : Ends → Type 0 where
    waits :
        {t : Sockets}
        → All IsGood cs
        → t.open_fds ≡ s.open_fds
        → t.sends ≡ s.sends ++ map greeting cs
        → Serves s cs (next t)
    ends :
        {t : Sockets} (pre : List Client) (c : Client) (post : List Client)
        → cs ≡ pre ++ (c ∷ post)
        → All IsGood pre
        → c.closed ≡ false
        → t.open_fds ≡ accepted_fd c.accepted ++ s.open_fds
        → t.sends ≡ (s.sends ++ map greeting pre) ++ (last_send c ∷ [])
        → Serves s cs (minus_one t)

  -- The first client of a run that is good.
  after_good :
      (c : Client) (cs : List Client) (s u : Sockets) (o : Ends)
      → IsGood c
      → u.open_fds ≡ s.open_fds
      → u.sends ≡ s.sends ++ (greeting c ∷ [])
      → Serves u cs o
      → Serves s (c ∷ cs) o
  after_good c cs s u _ g fds sends (waits gs fds' sends') =
      waits (g, gs) (fds' ∙ fds) (joined s.sends (greeting c) (map greeting cs) sends sends')
  after_good c cs s u _ g fds sends (ends pre d post e gs bad fds' sends') =
      let open_fds = fds' ∙ ap (λ l. accepted_fd d.accepted ++ l) fds in
      let sent =
        sends'
        ∙ ap (λ l. l ++ (last_send d ∷ []))
            (joined s.sends (greeting c) (map greeting pre) sends refl) in
      ends (c ∷ pre) d post (ap (λ l. c ∷ l) e) (g, gs) bad open_fds sent

  -- One client, by what the calls give.
  serve_fields :
      (a : Option ℕ) (addr : Address) (sized sent closed : Bool) (cs : List Client) (s : Sockets)
      → let c : Client = record {
        accepted = a;
        addr = addr;
        addr_sized = sized;
        sent = sent;
        closed = closed;
      } in
        IsAnswered c
        → ((u : Sockets) → Serves u cs (serve_all address_text cs u))
        → Serves s (c ∷ cs) (serve_all address_text (c ∷ cs) s)
  unfolding serve_all
  serve_fields none addr sized sent false cs s h ih =
      ends [] _ cs refl tt refl refl (start s.sends _)
  serve_fields none addr sized sent true cs s (inl e) ih = absurd (ground (arith, e))
  serve_fields none addr sized sent true cs s (inr (fd, e, _)) ih = absurd (ground (arith, e))
  serve_fields (some fd) addr true sent true cs s h ih =
      after_good _ cs s _ _ ((fd, refl, refl), refl) (rw (same fd) refl) refl (ih _)
  serve_fields (some fd) addr false sent true cs s (inl e) ih = absurd (ground (arith, e))
  serve_fields (some fd) addr false sent true cs s (inr (_, _, e)) ih = absurd (ground (arith, e))
  serve_fields (some fd) addr true sent false cs s h ih =
      ends [] _ cs refl tt refl refl (start s.sends _)
  serve_fields (some fd) addr false sent false cs s h ih =
      ends [] _ cs refl tt refl refl (start s.sends _)

  -- Over any clients, if ofp_close fails for the descriptor -1: a server that goes on has accepted
  -- every client, called ofp_send once for each of them with its own descriptor and address and for
  -- nothing else, in order, and closed every connection, whether these calls of ofp_send failed or
  -- not. It returns with the first client that it cannot accept, whose address has the wrong size or
  -- whose connection it cannot close, with a last call of ofp_send; a descriptor that was accepted
  -- then stays open, as does the socket of the server.
  pub serve_all-Serves :
      (cs : List Client) (s : Sockets)
      → All IsAnswered cs
      → Serves s cs (serve_all address_text cs s)
  unfolding serve_all
  serve_all-Serves [] s h = waits tt refl (sym (append-nil _))
  serve_all-Serves (c ∷ cs) s (h, hs) =
      serve_fields c.accepted c.addr c.addr_sized c.sent c.closed cs s h
        (λ u. serve_all-Serves cs u hs)
