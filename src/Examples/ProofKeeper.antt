-- ===== src/Examples/ProofKeeper.antt =====
-- Two Vaultkeepers of the proof of concept: one with the ID 10 under one with the ID 20. Addresses and
-- durations are read and printed by small tables.
use orv.Base.{
  ◌≡◌, refl, inl, inr, true, false, String, [], ◌∷◌, Option, none, some, ◌==◌, nat_eq, text_eq,
  if◌then◌else◌, Bool-cases,
}
use orv.Base.Int.{pos}
use orv.Base.Map.{lookup}
use Prim.Native.String.{◌++◌ as append}
use orv.Vk.State.{AddrPort, no_addr, addr_port}
use orv.Proof.Children.{ChildVk}
use orv.Proof.Children.Pruning.{get_random_provider, get_elem?, service_names}
use orv.Proof.Keeper.{VaultKeeper, free, done, Platform, pt_get_response}
use orv.Proof.Requests.{trim_slash}
use orv.Proof.Endpoints.Queries.{handle_list, handle_get}
use orv.Proof.Hops.{Station, network, IsBranch, Printing, first_provider, last_station}
use orv.Proof.Hops.Along.{beyond, list_kind, get_along, list_along}
use orv.Examples.Proof.{address, table}

abbrev pub low_address : AddrPort
low_address = addr_port 1 5000

abbrev pub print : AddrPort → String
print no_addr = "none"
print (addr_port ip port) = if ip == 2 then "2:6000" else "1:5000"

abbrev pub read : String → Option AddrPort
read s = if s == "2:6000" then some address else if s == "1:5000" then some low_address else none

abbrev pub platform : Platform
platform = record {
  trim_space = λ s. s;
  parse_addr_port = read;
  print_addr = print;
  parse_duration = λ s. if s == "" then none else some (pos 9);
  print_duration = λ d. "9s";
  print_provider = λ p. print p.addr;
}

no_slash : (a : AddrPort) → trim_slash (append "http://" (print a)) ≡ append "http://" (print a)
unfolding trim_slash
no_slash no_addr = refl
no_slash (addr_port ip port) = elim (Bool-cases (ip == 2)) [ inl e ↦ rw e refl | inr e ↦ rw e refl ]

printing : Printing platform
printing = record { trimmed = λ s. refl; no_slash = no_slash }

abbrev pub low : VaultKeeper
low = record {
  alive = true;
  id = 10;
  addr = low_address;
  children = table;
  children_locked = false;
  structure = free;
  height = 0;
  parent_id = 20;
  parent_addr = address;
  parent_heartbeat_frequency = pos 1;
  prune_times = record { pending_hello = pos 5; serviceless_child = pos 5; cvk = pos 5 };
  pending_hellos = (8, 0) ∷ [];
}

abbrev pub cvk_10 : ChildVk
cvk_10 = record { prune_timer = 0; services = []; addr = low_address }

-- A root with the lower one as a child VK, and with a provider of a service that the lower does not know.
abbrev pub top : VaultKeeper
top = record low {
  id = 20;
  addr = address;
  children = record table {
    services = ("dns", record { c_id = 10; addr = low_address } ∷ []) ∷ [];
    leaves = [];
    vks = (10, cvk_10) ∷ [];
  };
  height = 1;
  parent_id = 0;
  parent_addr = no_addr;
  pending_hellos = (10, 0) ∷ [];
}

abbrev at_low : Station
at_low = record { keeper = low; int_n = λ n. 0 }

abbrev at_top : Station
at_top = record { keeper = top; int_n = λ n. 0 }

branch : IsBranch at_low (at_top ∷ [])
unfolding IsBranch
branch = (refl, refl, refl, refl, (refl, refl, refl))

get_along_example :
    handle_get platform
      (network platform (at_top ∷ []))
      at_low.int_n
      (record { service = "dns"; hop_count = 3 })
      low
      tt
    ≡ (
      let found = first_provider platform "dns" at_low (beyond 3 (at_top ∷ [])) in
          done (record { pkt_type = pt_get_response; id = found.0; addr = found.1 }),
      tt,
    )
get_along_example = get_along platform printing 3 "dns" at_low (at_top ∷ []) branch refl refl

found_dns : first_provider platform "dns" at_low (beyond 3 (at_top ∷ [])) ≡ (20, "1:5000")
unfolding first_provider get_random_provider get_elem? lookup
found_dns = refl

list_along_example : handle_list platform (network platform (at_top ∷ [])) 3 low tt ≡ (
  let last = last_station at_low (beyond 3 (at_top ∷ [])) in
      done (record {
        pkt_type = list_kind (beyond 3 (at_top ∷ []));
        id = last.keeper.id;
        services = service_names last.keeper.children;
      }),
  tt,
)
list_along_example = list_along platform printing 3 at_low (at_top ∷ []) branch
