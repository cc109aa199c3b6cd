-- ===== src/Client/Parent/Quiet.antt =====
-- `Join` of a Vaultkeeper that nothing else changes meanwhile.
use orv.Base.{
  ℕ, ◌≡◌, ◌≢◌, inl, inr, refl, arith, String, List, [], ◌∷◌, Option, none, some, Result, ok, err,
  Result-cases, ap, ◌∙◌,
}
use orv.Base.Int.{ℤ, pos}
use orv.Protocol.{Header}
use orv.Protocol.MessageType
use orv.Protocol.Transport.{Context, Write, write_cancelled, write_failed, written, compose_packet}
use orv.Vk.State.{AddrPort, addr_eq, addr_beq_iff, Platform, VaultKeeper}
use orv.Client.{
  Message, join_request, register_request, request_header, ClientWire, Network, ClientError, Answer,
  await_answer, exchange, request,
}
use orv.Client.Requests.{HelloAnswer, JoinInfo, hello, join, register}
use orv.Client.Parent.{
  parent_changed, all_providers, under, join_info, register_providers, joined_parent,
  greeted_parent, join_parent,
}

module _ {P : Platform} where
  -- The Vaultkeeper that asked, by the answers of HELLO and of JOIN.
  abbrev pub placed : AddrPort → Result ClientError ℕ → Answer ℕ → VaultKeeper P → VaultKeeper P
  placed target (err e) answer vk = vk
  placed target (ok height) (id, err e) vk = vk
  placed target (ok height) (id, ok h) vk = under id target vk

module _ {P : Platform} {N : Type 0} where
  -- A network that leaves the Vaultkeeper alone.
  pub record IsQuiet (net : Network (VaultKeeper P × N)) : Type 0 where
    pub write_quiet :
        (a : AddrPort) (b : List ℕ) (s : VaultKeeper P × N) → (net.write a b s).1.0 ≡ s.0
    pub read_quiet : (a : AddrPort) (s : VaultKeeper P × N) → (net.read a s).1.0 ≡ s.0

  module _ (wire : ClientWire) (net : Network (VaultKeeper P × N)) (q : IsQuiet net) where
    await_answer-quiet :
        (ctx : Context) (target : AddrPort) (o : Write × (VaultKeeper P × N))
        → (await_answer wire net ctx target o).1.0 ≡ o.1.0
    unfolding await_answer
    await_answer-quiet ctx target (write_cancelled, s) = refl
    await_answer-quiet ctx target (write_failed, s) = refl
    await_answer-quiet ctx target (written, s) = ground (arith, q.read_quiet target s)

    exchange-quiet :
        (ctx : Context) (target : AddrPort) (h : Header) (m : Option Message)
        (s : VaultKeeper P × N)
        → (exchange wire net ctx target h m s).1.0 ≡ s.0
    unfolding exchange
    exchange-quiet ctx target h m s = elim (Result-cases (compose_packet wire.marshal ctx h m)) [
      | inl (e, f) ↦ ground arith
      | inr (b, f) ↦
          ground
            (arith, await_answer-quiet ctx target (net.write target b s), q.write_quiet target b s)
    ]

    request-quiet :
        {A : Type 0} (ack : ℕ) (read : List ℕ → Option A) (ctx : Context) (target : AddrPort)
        (h : Header) (m : Option Message) (s : VaultKeeper P × N)
        → (request wire net ack read ctx target h m s).1.0 ≡ s.0
    unfolding request
    request-quiet ack read ctx target h m s = ground (arith, exchange-quiet ctx target h m s)

    hello-quiet :
        (ctx : Context) (i : ℕ) (target : AddrPort) (s : VaultKeeper P × N)
        → (hello wire net ctx i target s).1.0 ≡ s.0
    unfolding hello
    hello-quiet ctx i target s =
        ground (arith, exchange-quiet ctx target (request_header MessageType.hello i) none s)

    join-quiet :
        (ctx : Context) (i : ℕ) (target : AddrPort) (info : JoinInfo) (s : VaultKeeper P × N)
        → (join wire net ctx i target info s).1.0 ≡ s.0
    unfolding join
    join-quiet ctx i target info s = ground (
      arith,
      request-quiet MessageType.join_accept wire.read_join_accept ctx target
          (request_header MessageType.join i)
          (some (
            join_request (record {
              is_vk = info.is_vk;
              vk_addr = wire.print_addr info.vk_addr;
              height = info.height;
            })))
          s,
    )

    register-quiet :
        (ctx : Context) (i : ℕ) (target : AddrPort) (t : String) (a : AddrPort) (d : ℤ)
        (s : VaultKeeper P × N)
        → (register wire net ctx i target t a d s).1.0 ≡ s.0
    unfolding register
    register-quiet ctx i target t a d s = ground (
      arith,
      request-quiet MessageType.register_accept wire.read_register_accept ctx target
          (request_header MessageType.register i)
          (some (
            register_request
              (record { service = t; address = wire.print_addr a; stale = wire.print_duration d })))
          s,
    )

    -- Where nothing else changes the Vaultkeeper, the loop over the providers does not either, and never
    -- finds another parent than it set.
    register_providers-quiet :
        (ctx : Context) (target : AddrPort) (providers : List (String × AddrPort))
        (s : VaultKeeper P × N)
        → s.0.structure.parent_addr ≡ target
        → ((register_providers wire net ctx target providers s).1.0 ≡ s.0)
          × ((register_providers wire net ctx target providers s).0 ≢ some parent_changed)
    unfolding register_providers
    register_providers-quiet ctx target [] s e = (refl, λ x. cc)
    register_providers-quiet ctx target ((t, a) ∷ rest) s e =
        let kept = register-quiet ctx s.0.id target t a (pos 0) s in
        let s' = (register wire net ctx s.0.id target t a (pos 0) s).1 in
        ground (
          arith,
          kept,
          (addr_beq_iff s.0.structure.parent_addr target).1 e,
          register_providers-quiet ctx target rest s' (ground (arith, kept, e)),
        )

    joined_parent-quiet :
        (ctx : Context) (target : AddrPort) (height : ℕ) (x : Answer ℕ × (VaultKeeper P × N))
        → ((joined_parent wire net ctx target x).1.0 ≡ placed target (ok height) x.0 x.1.0)
          × ((joined_parent wire net ctx target x).0 ≢ some parent_changed)
    unfolding joined_parent
    joined_parent-quiet ctx target height ((id, err e), s) = (refl, λ x. cc)
    joined_parent-quiet ctx target height ((id, ok h), (vk, n)) =
        register_providers-quiet ctx target (all_providers vk.children.all_services)
          (under id target vk, n) refl

    greeted_parent-quiet :
        (ctx : Context) (target : AddrPort) (x : HelloAnswer × (VaultKeeper P × N))
        → ((greeted_parent wire net ctx target x).1.0
            ≡ placed target x.0.2 (join wire net ctx x.1.0.id target (join_info x.1.0) x.1).0 x.1.0)
          × ((greeted_parent wire net ctx target x).0 ≢ some parent_changed)
    unfolding greeted_parent
    greeted_parent-quiet ctx target ((id, version, err e), s) = (refl, λ x. cc)
    greeted_parent-quiet ctx target ((id, version, ok height), s) =
        let j = join wire net ctx s.0.id target (join_info s.0) s in
        let k = joined_parent-quiet ctx target height j in
        (
          k.0 ∙ ap (placed target (ok height) j.0) (join-quiet ctx s.0.id target (join_info s.0) s),
          k.1,
        )

    -- Where nothing else changes the Vaultkeeper meanwhile, Join never ends because the parent was
    -- changed. Where both HELLO and JOIN are accepted the target is the parent from then on, with the ID
    -- in the answer to JOIN, even if a REGISTER that follows fails; and nothing else of the Vaultkeeper
    -- is changed. Where HELLO or JOIN fails nothing is.
    pub join_parent-quiet :
        (ctx : Context) (target : AddrPort) (s : VaultKeeper P × N)
        → let h = hello wire net ctx s.0.id target s in
          let j = join wire net ctx s.0.id target (join_info s.0) h.1 in
          let out = join_parent wire net ctx target s in
          (out.1.0 ≡ placed target h.0.2 j.0 s.0) × (out.0 ≢ some parent_changed)
    unfolding join_parent hello
    join_parent-quiet ctx target s =
        let h = hello wire net ctx s.0.id target s in
        ground (arith, hello-quiet ctx s.0.id target s, greeted_parent-quiet ctx target h)
