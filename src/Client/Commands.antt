-- ===== src/Client/Commands.antt =====
-- What a client sends: its search for the leader, and then its commands.
use raft_algorep.Base.{
  ℕ, ◌≤◌, Bool, true, false, not, List, [], ◌∷◌, ◌++◌, map, append-nil, append_assoc, Option, none,
  some, Outcome, ok, ◌>>=◌, fault, Fault, waiting, Ends, Ends-bind, Ends-if, Ends-mono, Returns,
  if◌then◌else◌, All, ◌≡◌, refl, sym, subst, ap, ◌∙◌, ◌⊎◌, inl, inr, arith, Text,
}
use raft_algorep.Config.{GlobalConfig, is_node}
use raft_algorep.Reciever.{RpcRecieverReinjecter, recv}
use raft_algorep.Rpc.{request_leader, request_client, RpcResponse, Packet}
use raft_algorep.Reciever.Arrivals.{arrivals, drained}
use raft_algorep.Client.{
  Client, handle_requests, random_node, ask_node, leader_answer, request_leader_id, send_all,
  send_request, is_empty_request, client_turn, send_packet, leader_of,
}
use raft_algorep.Client.Told.{Told, Told-now, Told-later}
use raft_algorep.Client.Intake.{Takes, Drained, handle_requests-Drained, entered}

-- The packets that carry commands to the leader.
abbrev pub to_leader : ℕ → Text → Packet
to_leader leader message = record { rpc = request_client message; dest = leader }

not-true : (b : Bool) → not b ≡ true → b ≡ false
not-true b e = ground arith

not-false : (b : Bool) → not b ≡ false → b ≡ true
not-false b e = ground arith

abbrev Stuck : Fault → Type 0
Stuck e = e ≡ waiting

Returns-Ends : (P : Client → Type 0) (m : Outcome Client) → Returns P m → Ends Stuck P m
Returns-Ends P (ok c) h = h
Returns-Ends P (fault e) h = absurd h

module _ (g : GlobalConfig) where
  -- A search for the leader, put to a node.
  abbrev pub IsSearch : Packet → Type 0
  IsSearch p = (p.rpc ≡ request_leader) × (is_node g p.dest ≡ true)

  send_all-eq :
      (ms : List Text) (c : Client)
      → send_all g ms c ≡ record c { sent = c.sent ++ map (to_leader c.leader_id) ms }
  unfolding send_all send_packet
  send_all-eq [] c = λ i. record c { sent = sym (append-nil c.sent) i }
  send_all-eq (m ∷ ms) c = send_all-eq ms (send_packet (request_client m) c.leader_id c) ∙ λ i.
      record c {
        sent =
            append_assoc c.sent (to_leader c.leader_id m ∷ []) (map (to_leader c.leader_id) ms) i;
      }

  -- Only searches are sent; the commands to send stay, and the leader is the one named first.
  abbrev Searched : Client → Client → Type 0
  Searched c d =
      (asks : List Packet) × All IsSearch asks
      × (d.sent ≡ c.sent ++ asks)
      × (d.request ≡ c.request)
      × (d.run ≡ c.run)
      × Told d.leader_id c.rpc_reciever.network

  random_node-IsNode :
      (draw : ℕ)
      → g.nb_node_min ≤ g.nb_node_max
      → Ends Stuck (λ dst. is_node g dst ≡ true) (random_node g draw)
  unfolding random_node is_node
  random_node-IsNode draw h = ground arith

  round-Searched :
      (loop : Client → Outcome Client) (dst : ℕ) (c : Client) (leader : Option ℕ)
      → ((d : Client) → Ends Stuck (Searched d) (loop d))
      → is_node g dst ≡ true
      → leader_of (recv c.rpc_reciever.network).0 ≡ leader
      → Ends Stuck (Searched c) (leader_answer g loop leader (ask_node g dst c).1)
  unfolding leader_answer ask_node send_packet
  round-Searched loop dst c (some l) ih is names = (
    record { rpc = request_leader; dest = dst } ∷ [],
    ((refl, is), tt),
    refl,
    refl,
    refl,
    Told-now c.rpc_reciever.network l names,
  )
  round-Searched loop dst c none ih is names =
      Ends-mono Stuck (Searched (ask_node g dst c).1) (Searched c) (loop (ask_node g dst c).1)
        (ih (ask_node g dst c).1)
        λ e (asks, all, s, r, u, t). (
          record { rpc = request_leader; dest = dst } ∷ asks,
          ((refl, is), all),
          s ∙ append_assoc c.sent (record { rpc = request_leader; dest = dst } ∷ []) asks,
          r,
          u,
          Told-later c.rpc_reciever.network e.leader_id names t,
        )

  request_leader_id-Searched :
      (draws : List ℕ) (c : Client)
      → g.nb_node_min ≤ g.nb_node_max
      → Ends Stuck (Searched c) (request_leader_id g draws c)
  unfolding request_leader_id ask_node send_packet
  request_leader_id-Searched [] c h = refl
  request_leader_id-Searched (draw ∷ draws) c h =
      Ends-bind Stuck (λ dst. is_node g dst ≡ true) (Searched c) (random_node g draw) _
        (random_node-IsNode draw h)
        λ dst is.
          round-Searched (request_leader_id g draws) dst c
            (leader_of (recv c.rpc_reciever.network).0) (λ d. request_leader_id-Searched draws d h)
            is refl

  -- A turn that returns, for the commands `ts` that came in and the schedule `net` that they left:
  -- a client that does not run keeps them; one that runs has sent all it had to its leader, in
  -- order, after searching for it, and its leader is the one that was named first.
  abbrev pub Turned : List Text → List (Option RpcResponse) → Client → Client → Type 0
  Turned ts net c d =
      ((d.run ≡ false) × (d.request ≡ c.request ++ ts) × (d.sent ≡ c.sent))
      ⊎ ((d.run ≡ true)
          × (d.request ≡ [])
          × Told d.leader_id net
          × ((asks : List Packet) × All IsSearch asks
              × (d.sent ≡ (c.sent ++ asks) ++ map (to_leader d.leader_id) (c.request ++ ts))))

  -- The end of a turn: all commands are sent, and none is kept.
  flushed :
      (ms : List Text) (c : Client)
      → c.request ≡ ms
      → (if is_empty_request g ms then c else send_request g c)
        ≡ record c { sent = c.sent ++ map (to_leader c.leader_id) ms; request = [] }
  unfolding is_empty_request send_request
  flushed [] c e = λ i. record c { sent = sym (append-nil c.sent) i; request = e i }
  flushed (m ∷ ms) c e =
      ap (λ (d : Client). record d { request = [] }) (send_all-eq c.request c) ∙ λ i. record c {
        sent = c.sent ++ map (to_leader c.leader_id) (e i);
        request = [];
      }

  sends-Turned :
      (ts : List Text) (c c₁ c₂ : Client)
      → Takes ts c c₁
      → c₁.run ≡ true
      → Searched c₁ c₂
      → Turned ts c₁.rpc_reciever.network c
          (if is_empty_request g c₂.request then c₂ else send_request g c₂)
  sends-Turned ts c c₁ c₂ (r, s, l) running (asks, all, s', r', u, t) =
      rw (flushed c₂.request c₂ refl) (inr (u ∙ running, refl, t, (asks, all, same)))
    where
      same :
          c₂.sent ++ map (to_leader c₂.leader_id) c₂.request
          ≡ (c.sent ++ asks) ++ map (to_leader c₂.leader_id) (c.request ++ ts)
      same =
          ap (λ x. x ++ map (to_leader c₂.leader_id) c₂.request) (s' ∙ ap (λ x. x ++ asks) s)
          ∙ ap (λ x. (c.sent ++ asks) ++ map (to_leader c₂.leader_id) x) (r' ∙ r)

  turn_rest-Turned :
      (draws : List ℕ) (ts : List Text) (c c₁ : Client)
      → g.nb_node_min ≤ g.nb_node_max
      → Takes ts c c₁
      → Ends Stuck (Turned ts c₁.rpc_reciever.network c) (
          if not c₁.run
          then ok c₁
          else (request_leader_id g draws c₁ >>= λ c₂.
              ok (if is_empty_request g c₂.request then c₂ else send_request g c₂)))
  turn_rest-Turned draws ts c c₁ h t =
      Ends-if Stuck (Turned ts c₁.rpc_reciever.network c) (not c₁.run) (ok c₁) _
        (λ idle. inl (not-true c₁.run idle, t.0, t.1))
        λ running.
          Ends-bind Stuck (Searched c₁) (Turned ts c₁.rpc_reciever.network c)
            (request_leader_id g draws c₁) _ (request_leader_id-Searched draws c₁ h)
            (λ c₂ s. sends-Turned ts c c₁ c₂ t (not-false c₁.run running) s)

  -- In a cluster with at least one node, a turn of a client takes all commands that the controller
  -- has sent before a receive times out, in order, after those that it still had. It can only fail
  -- to end by searching for a leader without end. A client that does not run then keeps the
  -- commands and sends nothing; one that runs sends nothing but searches, to nodes, and then all
  -- its commands, each once and in order, and keeps none. It sends them to the leader in the first
  -- answer that names one, among what arrives after the time-out.
  pub client_turn-Turned :
      (draws : List ℕ) (c : Client)
      → g.nb_node_min ≤ g.nb_node_max
      → Ends
          (λ e. e ≡ waiting)
          (Turned (entered (arrivals c.rpc_reciever)) (drained c.rpc_reciever).network c)
          (client_turn g draws c)
  unfolding client_turn
  client_turn-Turned draws c h =
      Ends-bind Stuck (Drained c)
        (Turned (entered (arrivals c.rpc_reciever)) (drained c.rpc_reciever).network c)
        (handle_requests c) _
        (Returns-Ends (Drained c) (handle_requests c) (handle_requests-Drained c))
        λ c₁ k.
          Ends-mono Stuck (Turned (entered (arrivals c.rpc_reciever)) c₁.rpc_reciever.network c)
            (Turned (entered (arrivals c.rpc_reciever)) (drained c.rpc_reciever).network c) _
            (turn_rest-Turned draws (entered (arrivals c.rpc_reciever)) c c₁ h k.0)
            (λ d t.
              subst
                (λ (q : RpcRecieverReinjecter).
                  Turned (entered (arrivals c.rpc_reciever)) q.network c d)
                k.1 t)
