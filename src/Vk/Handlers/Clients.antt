-- ===== src/Vk/Handlers/Clients.antt =====
-- LIST and GET: `serveList` and `serveGet` of implementations/slims/slims/vk/handlers.go.
use orv.Base.{
  ℕ, ◌+◌, ◌-◌, ◌%◌, ◌^◌, false, not, ◌||◌, String, [], ◌∷◌, Option, none, some, ◌==◌, nat_eq,
  text_eq, if◌then◌else◌,
}
use orv.Base.Map.{keys}
use orv.Base.Int.{ℤ, pos}
use orv.Version.{Version, supports}
use orv.Protocol.MessageType
use orv.Vk.State.{
  AddrPort, is_valid, body_required, version_not_supported, malformed_body, malformed_address,
  bad_token, ListBody, GetBody, Payload, list, list_ack, list_resp, get, get_ack, get_resp, Wire,
  Platform, VaultKeeper, send, respond_success,
}
use orv.Vk.Providers.{message_parent}
use orv.Vk.Providers.Laws.{providers_of}
use orv.Vk.Handlers.Outcome.{MessageHandler, fail, is_nil}

-- `tokenCooldown`: half a second, in nanoseconds.
abbrev pub token_cooldown : ℤ
token_cooldown = pos 500_000_000

-- Whether a request reaches the parent: the dial or the write may fail.
pub data Link : Type 0 where
  dial_fails write_fails up : Link

-- `if hops > 0 { hops -= 1 }`.
abbrev pub hops_left : ℕ → ℕ
hops_left hops = hops - 1

module _ {P : Platform} where
  -- `sendListResponse`.
  unfoldable pub send_list_response : AddrPort → String → Version → VaultKeeper P → VaultKeeper P
  send_list_response to token version vk =
      respond_success vk to version MessageType.list_resp
        (list_resp token (keys vk.children.all_services))

  -- `vk.hb.badHeartbeatCount.Add(1)`, on 32 bits.
  abbrev pub count_bad_heartbeat : VaultKeeper P → VaultKeeper P
  count_bad_heartbeat vk = record vk {
    hb = record (vk.hb) { bad_heartbeat_count = (vk.hb.bad_heartbeat_count + 1) % 2 ^ 32 };
  }

  -- The request goes to the parent under our ID; where that fails it is answered here.
  unfoldable pub forward_list : Link → ListBody → AddrPort → Version → VaultKeeper P → VaultKeeper P
  forward_list dial_fails req to version vk =
      count_bad_heartbeat (send_list_response to req.token version vk)
  forward_list write_fails req to version vk =
      count_bad_heartbeat (send_list_response to req.token version vk)
  forward_list up req to version vk = send vk (record {
    to = vk.structure.parent_addr;
    header = record { version = version; shorthand = false; type = MessageType.list; id = vk.id };
    payload = list req;
  })

  -- What follows the acknowledgement: nothing for a token that was handled lately.
  unfoldable pub handle_list : Link → ListBody → AddrPort → Version → VaultKeeper P → VaultKeeper P
  handle_list link r to version vk =
      let (swapped, t) = P.token_table.mark r.token token_cooldown vk.closed_list_tokens in
      let vk' : VaultKeeper P = record vk { closed_list_tokens = t } in
      let req : ListBody = record r { hop_count = hops_left r.hop_count } in
      if not swapped
      then vk'
      else if req.hop_count == 0 || not (is_valid vk.structure.parent_addr)
      then send_list_response to req.token version vk'
      else forward_list link req to version vk'

  unfoldable pub acknowledge : AddrPort → ℕ → Payload → VaultKeeper P → VaultKeeper P
  acknowledge sender type payload vk = respond_success vk sender vk.version_set.highest type payload

  unfoldable pub serve_list : Wire → Link → MessageHandler P
  serve_list w link hdr body sender vk =
      if not (supports vk.version_set hdr.version)
      then fail version_not_supported vk
      else if is_nil body
      then fail body_required vk
      else elim (w.unmarshal_list body) [
        | none ↦ fail malformed_body vk
        | some r ↦
            if r.token == "" then fail bad_token vk else elim (w.resolve_udp_addr r.response_addr) [
              | none ↦ fail malformed_address vk
              | some to ↦ (
                handle_list link r to hdr.version
                    (acknowledge sender MessageType.list_ack (list_ack r.token) vk),
                none,
              )
            ]
      ]

  abbrev pub send_get_response :
      GetBody → AddrPort → Version → Option AddrPort → VaultKeeper P → VaultKeeper P
  send_get_response r to version address vk =
      respond_success vk to version MessageType.get_resp (get_resp r.token r.service address)

  -- The service is not known here.
  unfoldable pub forward_get : GetBody → AddrPort → Version → VaultKeeper P → VaultKeeper P
  forward_get r to version vk =
      let req : GetBody = record r { hop_limit = hops_left r.hop_limit } in
      if req.hop_limit == 0 || not (is_valid vk.structure.parent_addr)
      then send_get_response req to version none vk
      else message_parent MessageType.get (get req) vk

  -- The first provider of the loop answers.
  unfoldable pub handle_get : GetBody → AddrPort → Version → VaultKeeper P → VaultKeeper P
  handle_get r to version vk = elim (providers_of r.service vk) [
    | none ↦ forward_get r to version vk
    | some [] ↦ vk
    | some ((id, addr) ∷ rest) ↦ send_get_response r to version (some addr) vk
  ]

  unfoldable pub serve_get : Wire → MessageHandler P
  serve_get w hdr body sender vk =
      if not (supports vk.version_set hdr.version)
      then fail version_not_supported vk
      else if is_nil body
      then fail body_required vk
      else elim (w.unmarshal_get body) [
        | none ↦ fail malformed_body vk
        | some r ↦
            if r.token == "" then fail bad_token vk else elim (w.resolve_udp_addr r.response_addr) [
              | none ↦ fail malformed_address vk
              | some to ↦ (
                handle_get r to hdr.version
                    (acknowledge sender MessageType.get_ack (get_ack r.token) vk),
                none,
              )
            ]
      ]
