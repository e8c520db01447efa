-- ===== src/Evaluator/Grants/Exact.antt =====
-- A call or an access is allowed exactly when a capability for this VM grants it.
use vm_auth_scope.Base.{
  ◌≡◌, ◌↔◌, ◌⊎◌, inl, inr, true, Bool-cases, List, [], ◌∷◌, Text, any, Some, here, there, ◌==◌,
  text_eq, text_beq, text_beq_iff, arith, if◌then◌else◌,
}
use vm_auth_scope.Ca.Jwt.{dotted}
use vm_auth_scope.Proto.Caps.{PathAccess, Capability}
use vm_auth_scope.Evaluator.Grants.{
  Evaluator, rpc_granted, can_call_rpc, path_granted, access_granted, can_access_path,
}

any-Some : (xs : List Text) (x : Text) → any xs (λ m. m == x) ≡ true → Some (λ m. m ≡ x) xs
any-Some [] x h = absurd (cc h)
any-Some (y ∷ ys) x h = elim (Bool-cases (text_beq y x)) [
  | inl same ↦ here ((text_beq_iff y x).0 same)
  | inr other ↦ there (any-Some ys x (ground arith))
]

Some-any : (xs : List Text) (x : Text) → Some (λ m. m ≡ x) xs → any xs (λ m. m == x) ≡ true
Some-any [] x s = elim s [ ]
Some-any (y ∷ ys) x (here e) = ground (arith, text_beq_iff y x)
Some-any (y ∷ ys) x (there s) = ground (arith, Some-any ys x s)

-- The capability names this VM, and the whole module or the method by its full name.
pub record CallGrant (vm module' method : Text) (c : Capability) : Type 0 where
  pub target : c.target_vm ≡ vm
  pub listed :
      Some (λ m. m ≡ module') c.rpc_modules ⊎ Some (λ m. m ≡ dotted module' method) c.rpc_methods

module _ (vm module' method : Text) where
  rpc_granted-Some :
      (caps : List Capability)
      → rpc_granted caps vm module' (dotted module' method) ≡ true
      → Some (CallGrant vm module' method) caps
  unfolding rpc_granted
  rpc_granted-Some [] h = absurd (cc h)
  rpc_granted-Some (c ∷ caps) h = elim (Bool-cases (text_beq c.target_vm vm)) [
    | inr other ↦ there (rpc_granted-Some caps (rw other at h))
    | inl same ↦ elim (Bool-cases (any c.rpc_modules (λ m. m == module'))) [
      | inl found ↦ here (record {
        target = (text_beq_iff _ _).0 same;
        listed = inl (any-Some c.rpc_modules module' found);
      })
      | inr lacks ↦ elim (Bool-cases (any c.rpc_methods (λ m. m == dotted module' method))) [
        | inl found ↦ here (record {
          target = (text_beq_iff _ _).0 same;
          listed = inr (any-Some c.rpc_methods (dotted module' method) found);
        })
        | inr lacks' ↦ there (rpc_granted-Some caps (rw (same, lacks, lacks') at h))
      ]
    ]
  ]

  Some-rpc_granted :
      (caps : List Capability)
      → Some (CallGrant vm module' method) caps
      → rpc_granted caps vm module' (dotted module' method) ≡ true
  unfolding rpc_granted
  Some-rpc_granted [] s = elim s [ ]
  Some-rpc_granted (c ∷ caps) (there s) = ground (arith, Some-rpc_granted caps s)
  Some-rpc_granted (c ∷ caps) (here g) = rw ((text_beq_iff _ _).1 g.target) (listed g.listed)
    where
      listed :
          Some (λ m. m ≡ module') c.rpc_modules
            ⊎ Some (λ m. m ≡ dotted module' method) c.rpc_methods
          → (if any c.rpc_modules (λ m. m == module')
              then true
              else if any c.rpc_methods (λ m. m == dotted module' method)
              then true
              else rpc_granted caps vm module' (dotted module' method))
            ≡ true
      listed (inl s) = rw (Some-any c.rpc_modules module' s)
      listed (inr s) = rw (Some-any c.rpc_methods (dotted module' method) s) (ground arith)

  -- `can_call_rpc` allows a call exactly when some capability of the claim is for the VM and lists
  -- the module, or the method as `module.method`.
  pub can_call_rpc_iff :
      (e : Evaluator)
      → (can_call_rpc e vm module' method ≡ true) ↔ Some (CallGrant vm module' method) e.claim.caps
  unfolding can_call_rpc
  can_call_rpc_iff e = (rpc_granted-Some e.claim.caps, Some-rpc_granted e.claim.caps)

-- One of the capability's entries has the path, exactly, and the mode among its access modes.
pub record PathGrant (path mode : Text) (p : PathAccess) : Type 0 where
  pub same_path : p.path ≡ path
  pub listed : Some (λ a. a ≡ mode) p.access

pub record AccessGrant (vm path mode : Text) (c : Capability) : Type 0 where
  pub target : c.target_vm ≡ vm
  pub granted : Some (PathGrant path mode) c.paths

module _ (vm path mode : Text) where
  path_granted-Some :
      (ps : List PathAccess) → path_granted ps path mode ≡ true → Some (PathGrant path mode) ps
  unfolding path_granted
  path_granted-Some [] h = absurd (cc h)
  path_granted-Some (p ∷ ps) h = elim (Bool-cases (text_beq p.path path)) [
    | inr other ↦ there (path_granted-Some ps (rw other at h))
    | inl same ↦ elim (Bool-cases (any p.access (λ a. a == mode))) [
      | inl found ↦
          here (record {
            same_path = (text_beq_iff _ _).0 same;
            listed = any-Some p.access mode found;
          })
      | inr lacks ↦ there (path_granted-Some ps (rw (same, lacks) at h))
    ]
  ]

  Some-path_granted :
      (ps : List PathAccess) → Some (PathGrant path mode) ps → path_granted ps path mode ≡ true
  unfolding path_granted
  Some-path_granted [] s = elim s [ ]
  Some-path_granted (p ∷ ps) (here g) =
      rw ((text_beq_iff _ _).1 g.same_path, Some-any p.access mode g.listed)
  Some-path_granted (p ∷ ps) (there s) = ground (arith, Some-path_granted ps s)

  access_granted-Some :
      (caps : List Capability)
      → access_granted caps vm path mode ≡ true
      → Some (AccessGrant vm path mode) caps
  unfolding access_granted
  access_granted-Some [] h = absurd (cc h)
  access_granted-Some (c ∷ caps) h = elim (Bool-cases (text_beq c.target_vm vm)) [
    | inr other ↦ there (access_granted-Some caps (rw other at h))
    | inl same ↦ elim (Bool-cases (path_granted c.paths path mode)) [
      | inl found ↦
          here (record {
            target = (text_beq_iff _ _).0 same;
            granted = path_granted-Some c.paths found;
          })
      | inr lacks ↦ there (access_granted-Some caps (rw (same, lacks) at h))
    ]
  ]

  Some-access_granted :
      (caps : List Capability)
      → Some (AccessGrant vm path mode) caps
      → access_granted caps vm path mode ≡ true
  unfolding access_granted
  Some-access_granted [] s = elim s [ ]
  Some-access_granted (c ∷ caps) (here g) =
      rw ((text_beq_iff _ _).1 g.target, Some-path_granted c.paths g.granted)
  Some-access_granted (c ∷ caps) (there s) = ground (arith, Some-access_granted caps s)

  -- `can_access_path` allows an access exactly when some capability of the claim is for the VM and
  -- has an entry with exactly that path that lists the mode.
  pub can_access_path_iff :
      (e : Evaluator)
      → (can_access_path e vm path mode ≡ true) ↔ Some (AccessGrant vm path mode) e.claim.caps
  unfolding can_access_path
  can_access_path_iff e = (access_granted-Some e.claim.caps, Some-access_granted e.claim.caps)
