-- ===== src/Examples/Client.antt =====
-- A client and a Vaultkeeper that read each other's packets, and a network that loses answers.
use orv.Base.{
  ℕ, suc, ◌≡◌, ◌≢◌, ◌↔◌, refl, arith, true, false, not, ◌&&◌, String, List, [], ◌∷◌, Option, none,
  some, ◌==◌, nat_eq, nat_beq_iff, text_eq, ap, if◌then◌else◌, ok, length,
}
use orv.Base.Int.{pos}
use orv.Base.Map.{Map, lookup, lookup-empty}
use orv.Version.{supports}
use orv.Protocol.{Header, serialize, deserialize}
use orv.Protocol.MessageType
use orv.Protocol.Transport.{
  live_context, written, Read, read_cancelled, arrives, cancelled, receive, compose_packet,
  serialize_packet,
}
use orv.Vk.State.{
  AddrPort, is_valid, Payload, hello_ack, join_accept, JoinBody, RegisterBody, Wire, VaultKeeper,
}
use orv.Vk.Children.{load_cvk}
use orv.Vk.Children.Views.{offers}
use orv.Vk.Children.Coherent.{Coherent}
use orv.Vk.Handlers.Clients.{up}
use orv.Client.{
  Message, join_request, register_request, heartbeat_request, list_request, get_request, ClientWire,
  Network, transport, request_header, exchange, request, await_answer, answer_of, read_answer,
}
use orv.Client.Queries.{hear_all}
use orv.Client.Laws.{request-ok}
use orv.Client.Waiting.{Found, hear_all_iff}
use orv.Client.Heartbeats.{lost_heartbeat_ends}
use orv.Client.Leaf.{
  LeafOffer, elapsed, heartbeat_failed, parent_mismatch, heartbeat_loop, register_new_leaf,
}
use orv.Client.Requests.{hello, join}
use orv.Client.Parent.{parent_changed, join_info, join_parent}
use orv.Client.Parent.Quiet.{IsQuiet, placed, join_parent-quiet}
use orv.Client.Served.{Agree, network}
use orv.Client.Served.Handshake.{OnWire}
use orv.Client.Served.Registration.{Registrable}
use orv.Client.Served.NewLeaf.{given_for, register_new_leaf-served}
use orv.Examples.Tables.{platform}
use orv.Examples.State.{addr, leaf_addr, fresh, fresh-Coherent, wire}

abbrev join_body : JoinBody
join_body = record { is_vk = false; vk_addr = "x"; height = 0 }

abbrev ssh_body : RegisterBody
ssh_body = record { service = "ssh"; address = "x"; stale = "9s" }

-- The wire of the example, on which every JOIN is that of a leaf.
abbrev server : Wire
server = record wire { unmarshal_join = λ b. some join_body }

abbrev marshal : Message → Option (List ℕ)
marshal (join_request j) =
    if not j.is_vk && j.vk_addr == "x" && j.height == 0 then some (1 ∷ []) else none
marshal (register_request r) =
    if r.service == "ssh" && r.address == "x" && r.stale == "9s" then some (2 ∷ []) else none
marshal (heartbeat_request services) = some (3 ∷ [])
marshal (list_request l) = none
marshal (get_request g) = none

abbrev read_height : List ℕ → Option ℕ
read_height [] = none
read_height (n ∷ ns) = some n

abbrev client_wire : ClientWire
client_wire = record {
  marshal = marshal;
  heartbeat_size = length;
  print_addr = λ a. "x";
  print_duration = λ d. "9s";
  read_fault = λ b. none;
  read_hello_ack = read_height;
  read_join_accept = read_height;
  read_register_accept = λ b. some "ssh";
  read_heartbeat_ack = λ b. some ([], []);
  read_status = λ b. none;
  read_list_resp = λ b. some ("t", "ssh" ∷ []);
  read_get_resp = λ b. some ("t", "x");
}

abbrev body_of : Payload → List ℕ
body_of (hello_ack n) = n ∷ []
body_of (join_accept n) = n ∷ []
body_of p = []

marshal-join_request :
    (j : JoinBody) (b : List ℕ) → marshal (join_request j) ≡ some b → join_body ≡ j
marshal-join_request j b e = ground (arith, text_eq.beq_iff j.vk_addr "x", nat_beq_iff j.height 0)

marshal-register_request :
    (r : RegisterBody) (b : List ℕ) → marshal (register_request r) ≡ some b → ssh_body ≡ r
marshal-register_request r b e = ground (
  arith,
  text_eq.beq_iff r.service "ssh",
  text_eq.beq_iff r.address "x",
  text_eq.beq_iff r.stale "9s",
)

agree : Agree client_wire server body_of
agree = record {
  join_read = λ j b e. ap some (marshal-join_request j b e);
  join_full = λ j b e f. ground arith;
  register_read = λ r b e. ap some (marshal-register_request r b e);
  register_full = λ r b e f. ground arith;
  printed = λ a. refl;
  hello_ack_read = λ n. refl;
  join_accept_read = λ n. refl;
  hello_ack_short = λ n. omega arith;
  join_accept_short = λ n. omega arith;
}

on_wire : OnWire {P = platform} fresh 7
on_wire = record {
  my_id_64 = omega arith;
  vk_id_64 = omega arith;
  others = omega arith;
  addressed = refl;
  nibbles = record { major_nibble = omega arith; minor_nibble = omega arith };
  supported = unfold lookup supports in refl;
}

abbrev ssh_offer : LeafOffer
ssh_offer = record { stale = pos 9; addr = leaf_addr }

abbrev services : Map String LeafOffer
services = ("ssh", ssh_offer) ∷ []

ssh-Registrable : Registrable client_wire server body_of "ssh" ssh_offer
ssh-Registrable = record {
  named = refl;
  addr_read = refl;
  duration_read = refl;
  accept_read = refl;
  body = 2 ∷ [];
  marshalled = refl;
  short = omega arith;
  accept_short = omega arith;
}

no_cvk_7 : load_cvk {P = platform} 7 fresh ≡ none
unfolding lookup
no_cvk_7 = refl

register_new_leaf-served_example :
    let out =
      register_new_leaf client_wire
        (network {P = platform} server up body_of leaf_addr)
        live_context
        7
        addr
        services
        fresh in
    (out.0 ≡ ("ssh" ∷ [], none))
    × ((t : String) → offers t 7 out.1 ≡ given_for t services (offers {P = platform} t 7 fresh))
    × Coherent out.1
register_new_leaf-served_example =
    register_new_leaf-served {P = platform} server up leaf_addr client_wire body_of agree 7 services
      (1 ∷ []) fresh on_wire no_cvk_7 refl (omega arith) (lookup-empty {V = LeafOffer} "ssh", tt)
      (ssh-Registrable, tt) fresh-Coherent

-- A HELLO_ACK of height 4 from node 1.
abbrev hello_ack_bytes : List ℕ
hello_ack_bytes = 16 ∷ 3 ∷ 0 ∷ 0 ∷ 0 ∷ 0 ∷ 0 ∷ 0 ∷ 0 ∷ 1 ∷ 4 ∷ []

-- What is written is counted, and the answer is always the same.
abbrev answering : Read → Network ℕ
answering r = record {
  dial = λ a n. true;
  write = λ a bytes n. (written, suc n);
  read = λ a n. (r, n);
  listen = λ n. some "x";
  arrivals = λ n. [];
}

hello_request_ok :
    (request client_wire
      (answering (arrives hello_ack_bytes))
      MessageType.hello_ack
      read_height
      live_context
      addr
      (request_header MessageType.hello 7)
      none
      0).0
    ≡ (1, ok 4)
unfolding request exchange await_answer answer_of read_answer receive compose_packet
    serialize_packet deserialize serialize
hello_request_ok = refl

request-ok_example :
    let net = answering (arrives hello_ack_bytes) in
    let h = request_header MessageType.hello 7 in
    (is_valid addr ≡ true)
    × ((hdr : Header) × (body : List ℕ) × ((exchange client_wire net live_context addr h none 0).0
          ≡ ok (hdr, body))
        × (hdr.type ≡ MessageType.hello_ack)
        × (hdr.id ≡ 1)
        × (read_height body ≡ some 4))
request-ok_example =
    request-ok client_wire (answering (arrives hello_ack_bytes)) MessageType.hello_ack read_height
      live_context addr (request_header MessageType.hello 7) none 0 1 4 hello_request_ok

-- The packets that reach a listener: a HELLO_ACK, and a LIST_RESP that bears the token.
abbrev heard : List (AddrPort × Read)
heard =
    (leaf_addr, arrives hello_ack_bytes)
    ∷ (addr, arrives (16 ∷ 22 ∷ 0 ∷ 0 ∷ 0 ∷ 0 ∷ 0 ∷ 0 ∷ 0 ∷ 1 ∷ []))
    ∷ []

hear_all_iff_example :
    (hear_all client_wire MessageType.list_resp client_wire.read_list_resp live_context "t" heard
      ≡ some (ok (addr, "ssh" ∷ [])))
    ↔ Found client_wire MessageType.list_resp client_wire.read_list_resp "t" live_context
        ("ssh" ∷ [])
        addr
        heard
hear_all_iff_example =
    hear_all_iff client_wire MessageType.list_resp client_wire.read_list_resp "t" live_context heard
      addr ("ssh" ∷ [])

lost_heartbeat_ends_example :
    heartbeat_loop client_wire
      (answering read_cancelled)
      7
      (record { id = 1; addr = addr })
      ("ssh" ∷ [])
      (elapsed ∷ elapsed ∷ [])
      ("ssh" ∷ [])
      0
    ≡ (heartbeat_failed (transport cancelled) ∷ parent_mismatch 1 0 ∷ [], 1)
lost_heartbeat_ends_example =
    lost_heartbeat_ends client_wire (answering read_cancelled) 7 (record { id = 1; addr = addr })
      "ssh" [] (elapsed ∷ []) [] "ssh" (3 ∷ []) 0 1 1 (omega arith) refl refl refl refl refl refl

-- The same network beside a Vaultkeeper.
abbrev beside : Network (VaultKeeper platform × ℕ)
beside = record {
  dial = λ a s. true;
  write = λ a bytes s. (written, (s.0, suc s.1));
  read = λ a s. (arrives hello_ack_bytes, s);
  listen = λ s. some "x";
  arrivals = λ s. [];
}

beside-IsQuiet : IsQuiet {P = platform} {N = ℕ} beside
beside-IsQuiet = record { write_quiet = λ a b s. refl; read_quiet = λ a s. refl }

join_parent-quiet_example :
    let s : VaultKeeper platform × ℕ = (fresh, 0) in
    let h = hello client_wire beside live_context 1 leaf_addr s in
    let j = join client_wire beside live_context 1 leaf_addr (join_info {P = platform} fresh) h.1 in
    let out = join_parent {P = platform} {N = ℕ} client_wire beside live_context leaf_addr s in
    (out.1.0 ≡ placed {P = platform} leaf_addr h.0.2 j.0 fresh) × (out.0 ≢ some parent_changed)
join_parent-quiet_example =
    join_parent-quiet {P = platform} {N = ℕ} client_wire beside beside-IsQuiet live_context
      leaf_addr (fresh, 0)
