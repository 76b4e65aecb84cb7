-- ===== src/Endpoint.antt =====
-- asusrouter/modules/endpoint/__init__.py: the endpoints, how each is requested, and which of them
-- carry sensitive data.
use asusrouter.Base.{Bool, true, false}

-- The union `EndpointType` of the four enums.
pub data Endpoint : Type 0 where
  cert_info ddns_code devicemap dsl ethernet_ports firmware firmware_note : Endpoint
  firmware_note_aimesh hook networkmapd onboarding port_status state sysinfo : Endpoint
  temperature update_clients vpn : Endpoint
  apply command : Endpoint
  login logout : Endpoint
  aura network traffic_backhaul traffic_ethernet traffic_wifi : Endpoint

pub data RequestType : Type 0 where
  get post : RequestType

-- `get_request_type`, with the map `ENDPOINT_FORCE_REQUEST`.
unfoldable pub get_request_type : Endpoint → RequestType
get_request_type port_status = get
get_request_type network = get
get_request_type traffic_backhaul = get
get_request_type traffic_ethernet = get
get_request_type traffic_wifi = get
get_request_type _ = post

-- `is_sensitive_endpoint`, with the set `SENSITIVE_ENDPOINTS`.
unfoldable pub is_sensitive_endpoint : Endpoint → Bool
is_sensitive_endpoint login = true
is_sensitive_endpoint apply = true
is_sensitive_endpoint command = true
is_sensitive_endpoint _ = false

-- `endpoint == EndpointService.LOGIN`
unfoldable pub is_login : Endpoint → Bool
is_login login = true
is_login _ = false
