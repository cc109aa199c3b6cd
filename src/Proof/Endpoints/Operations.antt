-- ===== src/Proof/Endpoints/Operations.antt =====
-- implementations/proof/proof/endpoints.go: the operations that a Vaultkeeper of the proof of concept
-- registers with huma.
use Prim.Native.String.{◌∷◌ as char_cons, [] as no_chars, ◌++◌ as append}
use orv.Base.{ℕ, ◌≡◌, refl, String, List, [], ◌∷◌, map}
use orv.Proof.Keeper.{
  ep_hello, ep_status, ep_join, ep_register, ep_vk_heartbeat, ep_list, ep_get, status_ok,
  status_accepted,
}

pub data Handler : Type 0 where
  hello_handler status_handler join_handler register_handler : Handler
  vk_heartbeat_handler service_heartbeat_handler list_handler get_handler : Handler

-- `huma.Operation`, whose ID is its summary as well, with the handler.
pub record Operation : Type 0 where
  pub operation_id : String
  pub method : String
  pub path : String
  pub tags : List String
  pub default_status : ℕ
  pub handled_by : Handler

abbrev pub ep_service_heartbeat : String
ep_service_heartbeat = "/service-heartbeat"

-- `s[1:]`
abbrev pub without_first : String → String
without_first no_chars = ""
without_first (char_cons c s) = s

abbrev pub operation : String → String → List String → ℕ → Handler → Operation
operation method path tags code h = record {
  operation_id = without_first path;
  method = method;
  path = path;
  tags = tags;
  default_status = code;
  handled_by = h;
}

-- `buildEndpoints`
unfoldable pub build_endpoints : List Operation
build_endpoints =
    operation "POST" ep_hello [] status_ok hello_handler
    ∷ operation "GET" ep_status ("meta" ∷ []) status_ok status_handler
    ∷ operation "POST" ep_join [] status_accepted join_handler
    ∷ operation "POST" ep_register [] status_accepted register_handler
    ∷ operation "POST" ep_vk_heartbeat [] status_ok vk_heartbeat_handler
    ∷ operation "POST" ep_service_heartbeat [] status_ok service_heartbeat_handler
    ∷ operation "POST" ep_list ("client" ∷ []) status_ok list_handler
    ∷ operation "POST" ep_get ("client" ∷ []) status_ok get_handler
    ∷ []

-- Each ID is the path without its slash.
operation_ids :
    map (λ o. append "/" o.operation_id) build_endpoints ≡ map (λ o. o.path) build_endpoints
unfolding build_endpoints
operation_ids = refl
