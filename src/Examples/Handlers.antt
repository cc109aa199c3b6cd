-- ===== src/Examples/Handlers.antt =====
-- The handlers at the example's node.
use orv.Base.{
  ℕ, ◌+◌, ◌-◌, ◌^◌, ◌≡◌, refl, arith, true, false, not, ◌&&◌, ◌||◌, String, List, [], ◌∷◌, ◌++◌,
  none, some, is_some, leb, nat_eq, text_eq, ◌==◌, if◌then◌else◌,
}
use orv.Base.Map.{lookup, insert, remove}
use orv.Base.Int.{ℤ, pos}
use orv.Version.{Version, supports}
use orv.Protocol.{Header}
use orv.Protocol.MessageType
use orv.Vk.State.{
  AddrPort, is_valid, hello_required, id_in_use, bad_height, unknown_child_id, JoinBody, ListBody,
  GetBody, get, Leaf, RegisterBody, Wire, VaultKeeper,
}
use orv.Vk.Timers.{after_func}
use orv.Vk.Providers.{add_provider, message_parent}
use orv.Vk.Providers.Laws.{provider}
use orv.Vk.Children.{
  load_cvk, load_leaf, add_leaf, add_service, install_leaf, add_leaf_service, stop_old_pruner,
}
use orv.Vk.Children.Views.{offers, is_child}
use orv.Vk.Children.Coherent.{Coherent}
use orv.Vk.Handlers.Joining.{child_height, join_leaf, join_cvk, drop_child, serve_leave}
use orv.Vk.Handlers.Tree.{merge_request, serve_merge, serve_increment}
use orv.Vk.Handlers.Clients.{send_get_response, handle_get}
use orv.Vk.Handlers.Admission.{
  greeted, join_leaf_lem, join_cvk_lem, leave_ack_packet, serve_leave_lem,
}
use orv.Vk.Handlers.Merging.{
  merge_welcome, new_parent, merge_accepts, under, merge_accept_packet, serve_merge_root_lem,
  serve_merge_no_body, serve_increment_unparented,
}
use orv.Vk.Handlers.Answers.{handle_get-offered, handle_get-unknown}
use orv.Vk.Handlers.Services.{Refreshed, serve_register}
use orv.Vk.Handlers.Discovery.{register_then_get}
use orv.Vk.Handlers.Coherence.{Coherent-children}
use orv.Examples.Tables.{platform}
use orv.Examples.State.{
  below_5, leaf_addr, version_1_0, versions, fresh, fresh-Coherent, with_leaf, with_leaf-Coherent,
  wire, header,
}

-- Node 7 has said HELLO.
abbrev after_hello : VaultKeeper platform
after_hello = record fresh { pending_hellos = (7, true) ∷ [] }

abbrev list_body : ListBody
list_body = record { token = "t"; hop_count = 2; response_addr = "x" }

abbrev get_body : GetBody
get_body = record { token = "t"; hop_limit = 2; response_addr = "x"; service = "ssh" }

abbrev leaf_body : JoinBody
leaf_body = record { is_vk = false; vk_addr = ""; height = 0 }

abbrev cvk_body : JoinBody
cvk_body = record { is_vk = true; vk_addr = "x"; height = 2 ^ 32 - 1 }

no_cvk : load_cvk {P = platform} 7 fresh ≡ none
unfolding lookup
no_cvk = refl

supported : supports versions version_1_0 ≡ true
unfolding supports lookup
supported = refl

supported_later : supports with_leaf.version_set version_1_0 ≡ true
unfolding add_service add_leaf install_leaf add_leaf_service stop_old_pruner after_func add_provider
    lookup insert remove supports
supported_later = refl

leaf_offers : is_some (offers {P = platform} "ssh" 7 with_leaf) ≡ true
unfolding add_service add_leaf install_leaf add_leaf_service stop_old_pruner after_func add_provider
    lookup insert remove offers
leaf_offers = refl

no_offer : (j : ℕ) → offers {P = platform} "ssh" j below_5 ≡ none
unfolding offers lookup
no_offer j = refl

below_5-Coherent : Coherent {P = platform} below_5
below_5-Coherent = Coherent-children {P = platform} fresh below_5 refl fresh-Coherent

join_leaf_lem_example :
    let i : ℕ = 7 in
    let vk : VaultKeeper platform = after_hello in
    let j : ℕ = 7 in
    ((join_leaf i vk).1 ≡ (
      if not (greeted i vk)
      then some hello_required
      else if is_some (load_cvk i vk)
      then some id_in_use
      else none))
    × (greeted i (join_leaf i vk).0 ≡ false)
    × (is_some (load_leaf j (join_leaf i vk).0) ≡ (
        is_some (load_leaf j vk)
        || (if i == j then greeted i vk && not (is_some (load_cvk i vk)) else false)))
    × (is_some (load_cvk j (join_leaf i vk).0) ≡ is_some (load_cvk j vk))
join_leaf_lem_example = join_leaf_lem {P = platform} 7 after_hello 7

join_cvk_lem_example :
    let w : Wire = wire in
    let b : JoinBody = cvk_body in
    let i : ℕ = 7 in
    let vk : VaultKeeper platform = after_hello in
    let a : AddrPort = leaf_addr in
    ((join_cvk w b i vk).1 ≡ (
      if not (b.height == child_height vk.structure.height)
      then some bad_height
      else if is_some (load_cvk i vk)
      then none
      else if not (greeted i vk)
      then some hello_required
      else if is_some (load_leaf i vk)
      then some id_in_use
      else none))
    × (load_cvk i (join_cvk w b i vk).0 ≡ (
        if b.height == child_height vk.structure.height
          && not (is_some (load_cvk i vk))
          && greeted i vk
          && not (is_some (load_leaf i vk))
        then some (record { services = []; addr = a })
        else load_cvk i vk))
join_cvk_lem_example = join_cvk_lem {P = platform} wire cvk_body 7 after_hello leaf_addr refl

serve_leave_lem_example :
    let h : Header = header 7 in
    let a : AddrPort = leaf_addr in
    let vk : VaultKeeper platform = with_leaf in
    let t : String = "ssh" in
    ((serve_leave h [] a vk).1 ≡ (if is_child h.id vk then none else some unknown_child_id))
    × ((serve_leave h [] a vk).0.sent ≡ (
        if is_child h.id vk
        then (drop_child h.id vk).1.sent ++ leave_ack_packet a vk ∷ []
        else vk.sent))
    × (is_child h.id (serve_leave h [] a vk).0 ≡ false)
    × (provider t h.id (serve_leave h [] a vk).0 ≡ none)
serve_leave_lem_example =
    serve_leave_lem {P = platform} (header 7) leaf_addr with_leaf "ssh" refl supported_later
      with_leaf-Coherent

serve_merge_root_lem_example :
    let w : Wire = wire in
    let h : Header = header 7 in
    let b : List ℕ = 1 ∷ [] in
    let a : AddrPort = leaf_addr in
    let vk : VaultKeeper platform = after_hello in
    let j : ℕ = 7 in
    let out = serve_merge w h b a vk in
    let asks = merge_welcome h vk && not (h.id == 0) in
    (is_some out.1 ≡ not (merge_accepts w h b a vk))
    × (out.0.structure
        ≡ (if asks then under h.id (new_parent w h.id b a vk) vk.structure else vk.structure))
    × (greeted j out.0 ≡ (greeted j vk && not (asks && h.id == j)))
    × (out.0.sent
        ≡ (if merge_accepts w h b a vk then vk.sent ++ merge_accept_packet a vk ∷ [] else vk.sent))
serve_merge_root_lem_example =
    serve_merge_root_lem {P = platform} wire (header 7) (1 ∷ []) leaf_addr after_hello 7 refl refl

serve_merge_no_body_example :
    let w : Wire = wire in
    let h : Header = header 7 in
    let a : AddrPort = leaf_addr in
    let vk : VaultKeeper platform = after_hello in
    (is_some (serve_merge w h [] a vk).1
      ≡ not (merge_welcome h vk && h.id == 0 && vk.structure.height == 0))
    × ((serve_merge w h [] a vk).0.structure ≡ vk.structure)
serve_merge_no_body_example =
    serve_merge_no_body {P = platform} wire (header 7) leaf_addr after_hello refl refl refl

-- The MERGE of node 7 is accepted.
merge_accepted : merge_accepts {P = platform} wire (header 7) (1 ∷ []) leaf_addr after_hello ≡ true
unfolding merge_request lookup supports
merge_accepted = refl

handle_get-offered_example :
    let r : GetBody = get_body in
    let to : AddrPort = leaf_addr in
    let v : Version = version_1_0 in
    let vk : VaultKeeper platform = with_leaf in
    let j : ℕ = 7 in
    (i : ℕ) × (p : AddrPort) × (offers r.service i vk ≡ some p)
    × (handle_get r to v vk ≡ send_get_response r to v (some p) vk)
handle_get-offered_example =
    handle_get-offered {P = platform} get_body leaf_addr version_1_0 with_leaf 7 with_leaf-Coherent
      leaf_offers

handle_get-unknown_example :
    let r : GetBody = get_body in
    let to : AddrPort = leaf_addr in
    let v : Version = version_1_0 in
    let vk : VaultKeeper platform = below_5 in
    handle_get r to v vk ≡ (
      if leb r.hop_limit 1 || not (is_valid vk.structure.parent_addr)
      then send_get_response r to v none vk
      else message_parent MessageType.get (get (record r { hop_limit = r.hop_limit - 1 })) vk)
handle_get-unknown_example =
    handle_get-unknown {P = platform} get_body leaf_addr version_1_0 below_5 below_5-Coherent
      no_offer

abbrev no_reports : Refreshed
no_reports = record { clock = with_leaf.clock; refresheds = []; unknowns = [] }

abbrev bare_leaf : Leaf
bare_leaf = record { serviceless_pruner = 0; services = [] }

leaf_present : is_child {P = platform} 7 with_leaf ≡ true
unfolding add_service add_leaf install_leaf add_leaf_service stop_old_pruner after_func add_provider
    lookup insert remove
leaf_present = refl

abbrev register_body : RegisterBody
register_body = record { service = "ssh"; address = "x"; stale = "9s" }

register_then_get_example :
    let w : Wire = wire in
    let h : Header = header 7 in
    let b : List ℕ = 1 ∷ [] in
    let a : AddrPort = leaf_addr in
    let vk : VaultKeeper platform = with_leaf in
    let r : RegisterBody = register_body in
    let d : ℤ = pos 9 in
    let p : AddrPort = leaf_addr in
    let g : GetBody = get_body in
    let to : AddrPort = leaf_addr in
    let v : Version = version_1_0 in
    let out = serve_register w h b a vk in
    (out.1 ≡ none)
    × (offers r.service h.id out.0 ≡ some p)
    × ((i : ℕ) × (q : AddrPort) × (offers g.service i out.0 ≡ some q)
        × (handle_get g to v out.0 ≡ send_get_response g to v (some q) out.0))
register_then_get_example =
    register_then_get {P = platform} wire (header 7) (1 ∷ []) leaf_addr with_leaf register_body
      (pos 9) leaf_addr get_body leaf_addr version_1_0 refl refl supported_later refl refl refl refl
      refl leaf_present with_leaf-Coherent

serve_increment_unparented_example :
    let w : Wire = wire in
    let h : Header = header 0 in
    let b : List ℕ = 1 ∷ [] in
    let a : AddrPort = leaf_addr in
    let vk : VaultKeeper platform = fresh in
    ((serve_increment w h b a vk).1 ≡ none)
    × ((serve_increment w h b a vk).0.structure.height ≡ vk.structure.height + 1)
serve_increment_unparented_example =
    serve_increment_unparented {P = platform} wire (header 0) (1 ∷ []) leaf_addr fresh refl refl
      refl refl supported refl (omega arith)
