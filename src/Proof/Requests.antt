-- ===== src/Proof/Requests.antt =====
-- implementations/proof/proof/requests.go: the requests that any client can make. Each gives the status
-- code with the answer, or none for an error. The packet type of an answer stays empty, since only its
-- body is read.
use Prim.Native.String.{◌∷◌ as char_cons, [] as no_chars, ◌++◌ as append}
use orv.Base.{ℕ, String, Option, none, some, ◌==◌, text_eq, if◌then◌else◌}
use orv.Proof.Keeper.{ep_status, ep_list, ep_get}
use orv.Proof.Messages.{StatusResp, ListResponseResp, GetResponseResp, Http}

-- `strings.TrimSuffix(s, "/")`
unfoldable pub trim_slash : String → String
trim_slash no_chars = ""
trim_slash (char_cons c s) =
    let rest = char_cons c (trim_slash s) in if char_cons c s == "/" then "" else rest

module _ {S : Type 0} (http : Http S) where
  -- `Status`
  unfoldable pub status : String → S → Option (ℕ × StatusResp) × S
  status addr_str s =
      let (res, s') = http.get_status (append (trim_slash addr_str) ep_status) s in
      elim res [
        | none ↦ (none, s')
        | some (code, b) ↦ (some (code, record { pkt_type = ""; body = b }), s')
      ]

  -- `List`
  unfoldable pub list : String → ℕ → S → Option (ℕ × ListResponseResp) × S
  list addr_str hop_count s =
      let (res, s') = http.post_list (append (trim_slash addr_str) ep_list) hop_count s in
      elim res [
        | none ↦ (none, s')
        | some (code, b) ↦ (some (code, record { pkt_type = ""; id = b.0; services = b.1 }), s')
      ]

  -- `Get`
  unfoldable pub get : String → ℕ → String → S → Option (ℕ × GetResponseResp) × S
  get vk_addr_str hop_count service s =
      let (res, s') =
        http.post_get (append (trim_slash vk_addr_str) ep_get)
          (record { service = service; hop_count = hop_count }) s in
      elim res [
        | none ↦ (none, s')
        | some (code, b) ↦ (some (code, record { pkt_type = ""; id = b.0; addr = b.1 }), s')
      ]
