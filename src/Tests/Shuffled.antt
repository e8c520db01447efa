-- ===== src/Tests/Shuffled.antt =====
-- A policy whose VMs and entities are written in two orders.
use mathlib.Core.List.Perm
use vm_auth_scope.Base.{◌≡◌, refl, none, some, [], ◌∷◌, codes, text_beq}
use vm_auth_scope.Server.Config.{HashMap, get, EntityPolicy, VmEntry, HostConfig}
use vm_auth_scope.Server.Config.Order.{IsMap, nil-IsMap, cons-IsMap}
use vm_auth_scope.Server.Policy.{resolve}
use vm_auth_scope.Server.Policy.Unordered.{no_vms, vm, resolve-Perm}
use vm_auth_scope.Tests.Keys.{grant, config}

abbrev granting : EntityPolicy
granting = record { caps = grant ∷ []; validity_days = some 30 }

abbrev nothing : EntityPolicy
nothing = record { caps = []; validity_days = none }

abbrev entities : HashMap EntityPolicy
entities = (codes "svc", granting) ∷ (codes "log", nothing) ∷ []

abbrev first_vm : VmEntry
first_vm = record { vm_cid = 3; entities = entities }

abbrev first_vm_shuffled : VmEntry
first_vm_shuffled = record {
  vm_cid = 3;
  entities = (codes "log", nothing) ∷ (codes "svc", granting) ∷ [];
}

abbrev second_vm : VmEntry
second_vm = record { vm_cid = 4; entities = [] }

abbrev written : HostConfig
written = record config { vms = (codes "a", first_vm) ∷ (codes "b", second_vm) ∷ [] }

abbrev shuffled : HostConfig
shuffled = record config { vms = (codes "b", second_vm) ∷ (codes "a", first_vm_shuffled) ∷ [] }

entities-IsMap : IsMap entities
unfolding get text_beq
entities-IsMap =
    cons-IsMap (hlevel) (codes "svc") granting _ refl
      (cons-IsMap (hlevel) (codes "log") nothing [] refl nil-IsMap)

vms-IsMap : IsMap written.vms
unfolding get text_beq
vms-IsMap =
    cons-IsMap (hlevel) (codes "a") first_vm _ refl
      (cons-IsMap (hlevel) (codes "b") second_vm [] refl nil-IsMap)

resolve-Perm_example :
    resolve written (codes "a") (codes "svc") ≡ resolve shuffled (codes "a") (codes "svc")
resolve-Perm_example =
    resolve-Perm written shuffled ((codes "b", second_vm) ∷ (codes "a", first_vm) ∷ []) (codes "a")
      (codes "svc") vms-IsMap (Perm.swap _ _ _)
      (vm (codes "b") second_vm second_vm refl nil-IsMap Perm.nil
        (vm (codes "a") first_vm first_vm_shuffled refl entities-IsMap (Perm.swap _ _ _) no_vms))
      refl
