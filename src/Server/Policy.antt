-- ===== src/Server/Policy.antt =====
-- apps/rust-apps/auth-scope-server/src/policy.rs
pub mod Found
pub mod Unordered
use vm_auth_scope.Base.{ℕ, Option, none, some, List, Text}
use mathlib.Core.Option.{get_or}
use vm_auth_scope.Proto.Caps.{Capability}
use vm_auth_scope.Server.Config.{get, HostConfig}

pub record PolicyDecision : Type 0 where
  pub vm_name : Text
  pub vm_cid : ℕ
  pub caps : List Capability
  pub validity_days : ℕ

unfoldable pub resolve : HostConfig → Text → Text → Option PolicyDecision
resolve config vm_name entity = elim (get config.vms vm_name) [
  | none ↦ none
  | some vm_entry ↦ elim (get vm_entry.entities entity) [
    | none ↦ none
    | some policy ↦ some (record {
      vm_name = vm_name;
      vm_cid = vm_entry.vm_cid;
      caps = policy.caps;
      validity_days = get_or policy.validity_days config.cert_validity_days;
    })
  ]
]
