-- ===== src/Examples/Routes.antt =====
-- A phone that publishes an empty list of properties.
use soffortmcp.Prelude.{[], ◌∷◌, string_eq}
use soffortmcp.Prelude.Json.{arr, nil}
use soffortmcp.Models.{PropertyIndex, partition_key}
use soffortmcp.Store.Memory.{
  Memory, empty, create_challenge, delete_device, put_property_index, get_approval,
  list_pending_approvals,
}
use soffortmcp.Approval.Service.{World}
use soffortmcp.MobileApi.{Body}
use soffortmcp.MobileApi.Routes.{RouteStore}
use soffortmcp.Examples.{alice}

abbrev pub route_store : RouteStore Memory
route_store = record {
  create_challenge = λ challenge now. create_challenge challenge;
  delete_device = λ partition device_id now. delete_device partition device_id;
  put_property_index = λ partition properties now. put_property_index now partition properties;
  get_approval = λ partition approval_id now. get_approval partition approval_id;
  list_pending_approvals = λ partition now. list_pending_approvals now partition;
}

abbrev index_body : Body
index_body = ("properties", arr nil) ∷ []

abbrev fresh_store : World Memory
fresh_store = record { state = empty; clock = 10; others = [] }

abbrev index_one : PropertyIndex
index_one = record { partition_key = partition_key alice; properties = []; updated_at = 10 }
