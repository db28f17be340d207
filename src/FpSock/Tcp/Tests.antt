-- ===== src/FpSock/Tcp/Tests.antt =====
-- The TCP server of src/fp-sock/tcp-server.c with two clients, and a third that it cannot accept.
use dpdk_perf.Common.{ℕ, refl, true, false, none, some, List, [], ◌∷◌, inl, inr}
use dpdk_perf.FpSock.Sockets.{Address}
use dpdk_perf.FpSock.Tcp.{Sockets, Client, no_address, serve_all}
use dpdk_perf.FpSock.Tcp.Clients.{Serves, serve_all-Serves}

abbrev text : Address → List ℕ
text a = a.ip ∷ a.port ∷ []

abbrev client : ℕ → Client
client n = record {
  accepted = some n;
  addr = record { ip = n; port = 7 };
  addr_sized = true;
  sent = true;
  closed = true;
}

abbrev broken : Client
broken = record {
  accepted = none;
  addr = no_address;
  addr_sized = true;
  sent = false;
  closed = false;
}

-- The second call of ofp_send fails.
abbrev clients : List Client
clients = client 5 ∷ record (client 6) { sent = false } ∷ broken ∷ []

abbrev listening : Sockets
listening = record { open_fds = 4 ∷ []; bound = []; sends = [] }

serve_all-Serves_example : Serves text listening clients (serve_all text clients listening)
serve_all-Serves_example =
    serve_all-Serves text clients listening
      (inr (5, refl, refl), (inr (6, refl, refl), (inl refl, tt)))
