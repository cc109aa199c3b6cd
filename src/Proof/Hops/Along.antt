-- ===== src/Proof/Hops/Along.antt =====
-- Where a LIST and a GET end that go up a branch.
use orv.Base.{
  ℕ, zero, suc, ◌+◌, ◌-◌, ◌≤◌, ◌≡◌, refl, inl, inr, ◌⊎◌, arith, false, String, List, [], ◌∷◌, ◌==◌,
  nat_eq, text_eq, take,
}
use Prim.Native.String.{◌++◌ as append}
use orv.Base.Map.{beq_refl}
use orv.Proof.Children.Pruning.{service_names}
use orv.Proof.Keeper.{done, Platform, pt_list_response, pt_get_response, url_at, ep_get, ep_list}
use orv.Proof.Messages.{GetReq}
use orv.Proof.Requests.{trim_slash, list, get}
use orv.Proof.Endpoints.Queries.{handle_list, list_from_parent, handle_get, get_from_parent}
use orv.Proof.Hops.{
  Station, network, IsBranch, Printing, first_provider, last_station, get_reply, list_reply,
}

-- The stations behind the first one that a request with this hop count may reach.
abbrev pub beyond : ℕ → List Station → List Station
beyond h up = take (h - 2) up

take_none : (n : ℕ) → take {A = Station} n [] ≡ []
take_none zero = refl
take_none (suc n) = refl

hops-cases : (h : ℕ) → (h ≤ 2) ⊎ ((n : ℕ) × (h ≡ n + 3))
hops-cases zero = inl (omega arith)
hops-cases (suc zero) = inl (omega arith)
hops-cases (suc (suc zero)) = inl (omega arith)
hops-cases (suc (suc (suc n))) = inr (n, omega arith)

-- The packet type of the answer to a LIST, by the stations behind the first.
abbrev pub list_kind : List Station → String
list_kind [] = pt_list_response
list_kind (next ∷ up) = pt_get_response

module _ (P : Platform) (laws : Printing P) where
  network_get :
      (next : Station) (up : List Station) (req : GetReq)
      → (network P (next ∷ up)).post_get
          (append (trim_slash (append "http://" (P.print_addr next.keeper.addr))) ep_get)
          req
          tt
        ≡ (get_reply (handle_get P (network P up) next.int_n req next.keeper tt).0, tt)
  unfolding network
  network_get next up req =
      ground (arith, laws.no_slash next.keeper.addr, beq_refl (url_at P next.keeper.addr ep_get))

  -- On a branch without kept locks, a GET with h hops for a service is answered with the address that the
  -- first of the first max(1, h - 1) Vaultkeepers knows that knows one, under the ID of that Vaultkeeper, or
  -- with none under the ID of the last of them.
  pub get_along :
      (h : ℕ) (sn : String) (st : Station) (up : List Station)
      → IsBranch st up
      → P.trim_space sn ≡ sn
      → (sn == "") ≡ false
      → handle_get P (network P up) st.int_n (record { service = sn; hop_count = h }) st.keeper tt
        ≡ (
          let found = first_provider P sn st (beyond h up) in
              done (record { pkt_type = pt_get_response; id = found.0; addr = found.1 }),
          tt,
        )
  unfolding handle_get get_from_parent IsBranch first_provider get
  get_along h sn st [] b t e = ground (arith, b, t, e, take_none (h - 2))
  get_along h sn st (next ∷ up) b t e = elim (hops-cases h) [
    | inl few ↦ let z : h - 2 ≡ 0 = omega (arith, few) in ground (arith, b, t, e, few, z)
    | inr (n, many) ↦
        let z : h - 2 ≡ suc n = omega (arith, many) in
        let y : h - 1 ≡ n + 2 = omega (arith, many) in
        let w : (n + 2) - 2 ≡ n = omega arith in
        ground (
          arith,
          b,
          t,
          e,
          many,
          z,
          y,
          w,
          network_get next up (record { service = sn; hop_count = h - 1 }),
          get_along (n + 2) sn next up b.4 t e,
        )
  ]

  network_list :
      (next : Station) (up : List Station) (h : ℕ)
      → (network P (next ∷ up)).post_list
          (append (trim_slash (append "http://" (P.print_addr next.keeper.addr))) ep_list)
          h
          tt
        ≡ (list_reply (handle_list P (network P up) h next.keeper tt).0, tt)
  unfolding network
  network_list next up h =
      ground (arith, laws.no_slash next.keeper.addr, beq_refl (url_at P next.keeper.addr ep_list))

  -- On a branch without kept locks, a LIST with h hops is answered with the services and the ID of the
  -- last of the first max(1, h - 1) Vaultkeepers. The packet type is that of a LIST only where the first one
  -- answers by itself, and otherwise that of a GET.
  pub list_along :
      (h : ℕ) (st : Station) (up : List Station)
      → IsBranch st up
      → handle_list P (network P up) h st.keeper tt ≡ (
        let last = last_station st (beyond h up) in
            done (record {
              pkt_type = list_kind (beyond h up);
              id = last.keeper.id;
              services = service_names last.keeper.children;
            }),
        tt,
      )
  unfolding handle_list list_from_parent IsBranch last_station list
  list_along h st [] b = ground (arith, b, take_none (h - 2))
  list_along h st (next ∷ up) b = elim (hops-cases h) [
    | inl few ↦ let z : h - 2 ≡ 0 = omega (arith, few) in ground (arith, b, few, z)
    | inr (n, many) ↦
        let z : h - 2 ≡ suc n = omega (arith, many) in
        let y : h - 1 ≡ n + 2 = omega (arith, many) in
        let w : (n + 2) - 2 ≡ n = omega arith in
        ground
          (arith, b, many, z, y, w, network_list next up (h - 1), list_along (n + 2) next up b.4)
  ]
