-- ===== src/Client/Served/NewLeaf.antt =====
-- A new leaf at a Vaultkeeper that answers: `RegisterNewLeaf` of
-- implementations/slims/slims/client/client.go, from HELLO to the last REGISTER.
use mathlib.Core.List.{append_assoc, append-nil}
use orv.Base.{
  ℕ, ◌≤◌, ◌≡◌, refl, arith, true, String, List, [], ◌∷◌, ◌++◌, Option, none, some, is_some, ◌==◌,
  nat_eq, text_eq, if◌then◌else◌, length, ◌∙◌, All,
}
use orv.Base.Map.{Map, keys, lookup}
use orv.Protocol.Transport.{live_context}
use orv.Vk.State.{AddrPort, Payload, Wire, Platform, VaultKeeper}
use orv.Vk.Children.{load_cvk, load_leaf}
use orv.Vk.Children.Views.{offers}
use orv.Vk.Children.Coherent.{Coherent}
use orv.Vk.Handlers.Clients.{Link}
use orv.Vk.Handlers.Coherence.{Coherent-children}
use orv.Vk.Handlers.Discovery.{offers-children}
use orv.Client.{join_request, ClientWire}
use orv.Client.Leaf.{LeafOffer, register_all, join_and_register, register_new_leaf}
use orv.Client.Served.{Agree, network}
use orv.Client.Served.Handshake.{OnWire, greeting, greeting-greeted, hello-served}
use orv.Client.Served.Joining.{SameNode, leaf_body, Joined, joining, joining-Joined, join-served}
use orv.Client.Served.Registration.{
  Registrable, OnWire-SameNode, registering, registering-Offered, register-served,
}

-- The address at which a service is offered, once the services of a list were registered in turn.
unfoldable pub last_offer : String → Map String LeafOffer → Option AddrPort → Option AddrPort
last_offer t [] before = before
last_offer t ((s, o) ∷ rest) before = last_offer t rest (if s == t then some o.addr else before)

-- A Go map: each key stands once.
abbrev pub IsDistinct : Map String LeafOffer → Type 0
IsDistinct [] = Unit
IsDistinct ((s, o) ∷ rest) = (lookup s rest ≡ none) × IsDistinct rest

-- The address that is given for a service, or the one at which it was offered before.
abbrev pub given_for : String → Map String LeafOffer → Option AddrPort → Option AddrPort
given_for t services before = elim (lookup t services) [ none ↦ before | some o ↦ some o.addr ]

last_offer-given_for :
    (t : String) (services : Map String LeafOffer) (before : Option AddrPort)
    → IsDistinct services
    → last_offer t services before ≡ given_for t services before
unfolding last_offer lookup
last_offer-given_for t [] before d = refl
last_offer-given_for t ((s, o) ∷ rest) before d = ground (
  arith,
  text_eq.beq_iff s t,
  d.0,
  last_offer-given_for t rest (if s == t then some o.addr else before) d.1,
)

abbrev pub AllRegistrable : ClientWire → Wire → (Payload → List ℕ) → Map String LeafOffer → Type 0
AllRegistrable wire server body_of services =
    All (λ x. Registrable wire server body_of x.0 x.1) services

module _ {P : Platform} (server : Wire) (link : Link) (client : AddrPort) (wire : ClientWire)
    (body_of : Payload → List ℕ) (agree : Agree wire server body_of) where
  -- The Vaultkeeper once it has answered the REGISTERs.
  unfoldable pub registering_all : ℕ → Map String LeafOffer → VaultKeeper P → VaultKeeper P
  registering_all my_id [] vk = vk
  registering_all my_id ((s, o) ∷ rest) vk =
      registering_all my_id rest (registering server link client wire body_of agree my_id s o vk)

  register_all-served :
      (my_id : ℕ) (services : Map String LeafOffer) (done : List String) (vk : VaultKeeper P)
      → AllRegistrable wire server body_of services
      → OnWire vk my_id
      → is_some (load_leaf my_id vk) ≡ true
      → register_all wire
          (network server link body_of client)
          live_context
          my_id
          vk.addr
          services
          done
          vk
        ≡ ((done ++ keys services, none), registering_all my_id services vk)
  unfolding register_all registering_all
  register_all-served my_id [] done vk r w l = simp append-nil
  register_all-served my_id ((s, o) ∷ rest) done vk r w l =
      let f = registering-Offered server link client wire body_of agree my_id s o vk l in
      let v = registering server link client wire body_of agree my_id s o vk in
      ground (
        arith,
        register-served server link client wire body_of agree my_id s o vk r.0 w l,
        register_all-served my_id rest (done ++ s ∷ []) v r.1 (OnWire-SameNode vk v my_id f.same w)
            f.leaf,
        f.same,
        append_assoc done (s ∷ []) (keys rest),
      )

  registering_all-offers :
      (my_id : ℕ) (services : Map String LeafOffer) (vk : VaultKeeper P) (t : String)
      → is_some (load_leaf my_id vk) ≡ true
      → offers t my_id (registering_all my_id services vk)
        ≡ last_offer t services (offers t my_id vk)
  unfolding registering_all last_offer
  registering_all-offers my_id [] vk t l = refl
  registering_all-offers my_id ((s, o) ∷ rest) vk t l =
      let f = registering-Offered server link client wire body_of agree my_id s o vk l in
      let v = registering server link client wire body_of agree my_id s o vk in
      ground (arith, registering_all-offers my_id rest v t f.leaf, f.offered t)

  registering_all-Coherent :
      (my_id : ℕ) (services : Map String LeafOffer) (vk : VaultKeeper P)
      → is_some (load_leaf my_id vk) ≡ true
      → Coherent vk
      → Coherent (registering_all my_id services vk)
  unfolding registering_all
  registering_all-Coherent my_id [] vk l c = c
  registering_all-Coherent my_id ((s, o) ∷ rest) vk l c =
      let f = registering-Offered server link client wire body_of agree my_id s o vk l in
      registering_all-Coherent my_id rest
        (registering server link client wire body_of agree my_id s o vk) f.leaf (f.coherent c)

  greeting-SameNode :
      (my_id : ℕ) (vk : VaultKeeper P) → SameNode vk (greeting server link client my_id vk)
  greeting-SameNode my_id vk = ground (arith, greeting-greeted server link client my_id vk)

  -- The Vaultkeeper once it has answered the HELLO and the JOIN of a new leaf.
  abbrev admitted : ℕ → VaultKeeper P → VaultKeeper P
  admitted my_id vk =
      joining server link client wire body_of agree my_id (greeting server link client my_id vk)

  greeting-Joined :
      (my_id : ℕ) (vk : VaultKeeper P)
      → load_cvk my_id vk ≡ none
      → Joined server link client wire body_of agree my_id (greeting server link client my_id vk)
  greeting-Joined my_id vk n =
      let g = greeting-greeted server link client my_id vk in
      joining-Joined server link client wire body_of agree my_id
        (greeting server link client my_id vk) g.0 (ground (arith, g))

  admitted-SameNode :
      (my_id : ℕ) (vk : VaultKeeper P) → load_cvk my_id vk ≡ none → SameNode vk (admitted my_id vk)
  admitted-SameNode my_id vk n =
      ground (arith, greeting-SameNode my_id vk, (greeting-Joined my_id vk n).same)

  register_new_leaf-registering_all :
      (my_id : ℕ) (services : Map String LeafOffer) (b : List ℕ) (vk : VaultKeeper P)
      → OnWire vk my_id
      → load_cvk my_id vk ≡ none
      → wire.marshal (join_request (leaf_body wire)) ≡ some b
      → length b ≤ 1014
      → AllRegistrable wire server body_of services
      → register_new_leaf wire
          (network server link body_of client)
          live_context
          my_id
          vk.addr
          services
          vk
        ≡ ((keys services, none), registering_all my_id services (admitted my_id vk))
  unfolding register_new_leaf join_and_register
  register_new_leaf-registering_all my_id services b vk w n m short r =
      let v = greeting server link client my_id vk in
      let g = greeting-greeted server link client my_id vk in
      let j = greeting-Joined my_id vk n in
      let s = admitted-SameNode my_id vk n in
      ground (
        arith,
        g,
        s,
        hello-served server link client wire body_of agree my_id vk w,
        join-served server link client wire body_of agree my_id b v
            (OnWire-SameNode vk v my_id (greeting-SameNode my_id vk) w) g.0 (ground (arith, g)) m
            short,
        register_all-served my_id services [] (admitted my_id vk) r
            (OnWire-SameNode vk (admitted my_id vk) my_id s w) j.leaf,
      )

  admitted-offers :
      (my_id : ℕ) (vk : VaultKeeper P) (t : String)
      → load_cvk my_id vk ≡ none
      → offers t my_id (admitted my_id vk) ≡ offers t my_id vk
  admitted-offers my_id vk t n =
      let v = greeting server link client my_id vk in
      (greeting-Joined my_id vk n).offered t my_id
      ∙ offers-children vk v t my_id (greeting-greeted server link client my_id vk).1

  admitted-Coherent :
      (my_id : ℕ) (vk : VaultKeeper P)
      → load_cvk my_id vk ≡ none
      → Coherent vk
      → Coherent (admitted my_id vk)
  admitted-Coherent my_id vk n c = (greeting-Joined my_id vk n).coherent (
      Coherent-children vk (greeting server link client my_id vk)
        (greeting-greeted server link client my_id vk).1 c)

  -- At a Vaultkeeper that receives what is sent to it and whose answers arrive, RegisterNewLeaf of a
  -- node that is no child VK, with services that can be registered,
  -- gives all the services and no error. The node then offers each service at the address given for
  -- it, its other services as before, and the two views of the children agree if they did.
  pub register_new_leaf-served :
      (my_id : ℕ) (services : Map String LeafOffer) (b : List ℕ) (vk : VaultKeeper P)
      → OnWire vk my_id
      → load_cvk my_id vk ≡ none
      → wire.marshal (join_request (leaf_body wire)) ≡ some b
      → length b ≤ 1014
      → IsDistinct services
      → AllRegistrable wire server body_of services
      → Coherent vk
      → let out =
          register_new_leaf wire
            (network server link body_of client)
            live_context
            my_id
            vk.addr
            services
            vk in
        (out.0 ≡ (keys services, none))
        × ((t : String) → offers t my_id out.1 ≡ given_for t services (offers t my_id vk))
        × Coherent out.1
  register_new_leaf-served my_id services b vk w n m short d r c =
      let leaf = (greeting-Joined my_id vk n).leaf in
      rw (register_new_leaf-registering_all my_id services b vk w n m short r) (
        refl,
        λ t. ground (
          arith,
          registering_all-offers my_id services (admitted my_id vk) t leaf,
          admitted-offers my_id vk t n,
          last_offer-given_for t services (offers t my_id vk) d,
        ),
        registering_all-Coherent my_id services (admitted my_id vk) leaf
            (admitted-Coherent my_id vk n c),
      )
