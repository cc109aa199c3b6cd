-- ===== src/Vk/Handlers/Answers.antt =====
-- What a client is told: the answer of GET, and the token of a LIST.
use orv.Base.{
  ℕ, ◌≡◌, arith, true, [], ◌∷◌, none, some, is_some, text_eq, leb, ◌||◌, ◌-◌, not, nat_eq,
  Option-cases, inl, inr, if◌then◌else◌,
}
use orv.Base.Map.{lookup, is_empty, lookup-empty}
use orv.Protocol.MessageType
use orv.Version.{Version}
use orv.Vk.State.{
  AddrPort, is_valid, get, ListBody, GetBody, Platform, VaultKeeper, send, respond_success,
}
use orv.Vk.Providers.{message_parent}
use orv.Vk.Providers.Laws.{providers_of, provider}
use orv.Vk.Children.Views.{offers}
use orv.Vk.Children.Coherent.{Coherent}
use orv.Vk.Handlers.Clients.{
  Link, up, dial_fails, write_fails, token_cooldown, send_get_response, forward_get, handle_get,
  send_list_response, forward_list, handle_list,
}

module _ {P : Platform} where
  -- A token that was handled is closed, and stays so.
  handle_list-seen :
      (k : Link) (r : ListBody) (to : AddrPort) (v : Version) (vk : VaultKeeper P)
      → P.token_table.seen r.token (handle_list k r to v vk).closed_list_tokens ≡ true
  unfolding handle_list forward_list send_list_response respond_success send
  handle_list-seen dial_fails r to v vk = ground (
    arith,
    text_eq.beq_iff r.token r.token,
    P.token_table.seen-mark r.token r.token token_cooldown vk.closed_list_tokens,
  )
  handle_list-seen write_fails r to v vk = ground (
    arith,
    text_eq.beq_iff r.token r.token,
    P.token_table.seen-mark r.token r.token token_cooldown vk.closed_list_tokens,
  )
  handle_list-seen up r to v vk = ground (
    arith,
    text_eq.beq_iff r.token r.token,
    P.token_table.seen-mark r.token r.token token_cooldown vk.closed_list_tokens,
  )

  handle_list-closed :
      (k : Link) (r : ListBody) (to : AddrPort) (v : Version) (vk : VaultKeeper P)
      → P.token_table.seen r.token vk.closed_list_tokens ≡ true
      → (handle_list k r to v vk).sent ≡ vk.sent
  unfolding handle_list
  handle_list-closed k r to v vk e =
      ground (arith, P.token_table.mark-swapped r.token token_cooldown vk.closed_list_tokens)

  -- A LIST that bears the token of one that was handled before, and has not expired since, is
  -- neither answered nor sent on, whatever else it holds.
  pub handle_list_once :
      (k l : Link) (r q : ListBody) (to from : AddrPort) (v u : Version) (vk : VaultKeeper P)
      → r.token ≡ q.token
      → (handle_list l q from u (handle_list k r to v vk)).sent ≡ (handle_list k r to v vk).sent
  handle_list_once k l r q to from v u vk e =
      let w = handle_list k r to v vk in
      handle_list-closed l q from u w (rw⁻¹ e (handle_list-seen k r to v vk))

  handle_get-first :
      (r : GetBody) (to : AddrPort) (v : Version) (vk : VaultKeeper P) (j : ℕ)
      → is_some (provider r.service j vk) ≡ true
      → (i : ℕ) × (p : AddrPort) × (provider r.service i vk ≡ some p)
        × (handle_get r to v vk ≡ send_get_response r to v (some p) vk)
  unfolding provider
  handle_get-first r to v vk j e = elim (Option-cases (providers_of r.service vk)) [
    | inl f ↦ absurd (ground arith)
    | inr ([], f) ↦ absurd (ground (arith, lookup-empty {V = AddrPort} j))
    | inr ((i, p) ∷ rest, f) ↦ (
      i,
      p,
      unfold lookup in ground (arith, nat_eq.beq_iff i i),
      unfold handle_get in ground arith,
    )
  ]

  -- Where the two views of the children agree, no service is listed without a provider, and some
  -- child offers a service, the one answer to a GET of
  -- it is sent to the address that the request named, and holds an address at which a child offers
  -- the service.
  pub handle_get-offered :
      (r : GetBody) (to : AddrPort) (v : Version) (vk : VaultKeeper P) (j : ℕ)
      → Coherent vk
      → is_some (offers r.service j vk) ≡ true
      → (i : ℕ) × (p : AddrPort) × (offers r.service i vk ≡ some p)
        × (handle_get r to v vk ≡ send_get_response r to v (some p) vk)
  handle_get-offered r to v vk j c e =
      let (i, p, k, l) = handle_get-first r to v vk j (ground (arith, c.agree r.service j)) in
      (i, p, ground (arith, c.agree r.service i), l)

  -- Where the two views of the children agree, no service is listed without a provider, and no
  -- child offers a service, a GET of it that may
  -- make one more hop goes to the parent, with one hop less; at a root, or when no hop is left, the
  -- answer says that there is none.
  pub handle_get-unknown :
      (r : GetBody) (to : AddrPort) (v : Version) (vk : VaultKeeper P)
      → Coherent vk
      → ((j : ℕ) → offers r.service j vk ≡ none)
      → handle_get r to v vk ≡ (
          if leb r.hop_limit 1 || not (is_valid vk.structure.parent_addr)
          then send_get_response r to v none vk
          else message_parent MessageType.get (get (record r { hop_limit = r.hop_limit - 1 })) vk)
  handle_get-unknown r to v vk c n = elim (Option-cases (providers_of r.service vk)) [
    | inl f ↦ unfold handle_get forward_get in ground arith
    | inr ([], f) ↦ absurd (unfold is_empty in ground (arith, c.none_empty r.service))
    | inr ((i, p) ∷ rest, f) ↦
        absurd
          (unfold provider lookup in ground (arith, nat_eq.beq_iff i i, n i, c.agree r.service i))
  ]
