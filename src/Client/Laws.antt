-- ===== src/Client/Laws.antt =====
-- When a request of a client succeeds.
use orv.Base.{
  ℕ, ◌≡◌, refl, arith, true, List, Option, some, nat_eq, text_eq, Result, ok, err, inl, inr,
  Bool-cases,
}
use orv.Protocol.{Header}
use orv.Protocol.Transport.{Context}
use orv.Vk.State.{AddrPort, is_valid}
use orv.Client.{
  Message, ClientWire, Network, ClientError, read_answer, answer_of, exchange, request,
}

module _ (wire : ClientWire) where
  read_answer-ok :
      {A : Type 0} (ack : ℕ) (read : List ℕ → Option A) (hdr : Header) (body : List ℕ) (a : A)
      → read_answer wire ack read hdr body ≡ ok a
      → (hdr.type ≡ ack) × (read body ≡ some a)
  unfolding read_answer
  read_answer-ok ack read hdr body a e = ground arith

  answer_of-ok :
      {A : Type 0} (ack : ℕ) (read : List ℕ → Option A) (r : Result ClientError (Header × List ℕ))
      (id : ℕ) (a : A)
      → answer_of wire ack read r ≡ (id, ok a)
      → (hdr : Header) × (body : List ℕ) × (r ≡ ok (hdr, body))
        × (hdr.type ≡ ack)
        × (hdr.id ≡ id)
        × (read body ≡ some a)
  unfolding answer_of
  answer_of-ok ack read (err e) id a h = cc
  answer_of-ok ack read (ok (hdr, body)) id a h =
      let k = read_answer-ok ack read hdr body a (ground arith) in
      (hdr, body, refl, k.0, ground arith, k.1)

  -- A request gives an answer only where its target is valid and a packet was received that is of the
  -- type that acknowledges it and whose body reads as that answer; the ID is that of the packet.
  pub request-ok :
      {A S : Type 0} (net : Network S) (ack : ℕ) (read : List ℕ → Option A) (ctx : Context)
      (target : AddrPort) (h : Header) (m : Option Message) (s : S) (id : ℕ) (a : A)
      → (request wire net ack read ctx target h m s).0 ≡ (id, ok a)
      → (is_valid target ≡ true)
        × ((hdr : Header) × (body : List ℕ) × ((exchange wire net ctx target h m s).0
              ≡ ok (hdr, body))
            × (hdr.type ≡ ack)
            × (hdr.id ≡ id)
            × (read body ≡ some a))
  unfolding request
  request-ok net ack read ctx target h m s id a e = elim (Bool-cases (is_valid target)) [
    | inl v ↦ (v, answer_of-ok ack read (exchange wire net ctx target h m s).0 id a (ground arith))
    | inr v ↦ absurd (ground arith)
  ]
