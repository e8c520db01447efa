-- ===== src/Proto/Json/Loaded.antt =====
-- JSON files with a port that is checked: what both configurations' loading has in common.
use mathlib.Core.Path.{subst}
use vm_auth_scope.Base.{
  ℕ, ◌<◌, ◌≡◌, ◌↔◌, refl, ap, ◌∙◌, false, Bool-cases, inl, inr, Text, leb, arith, if◌then◌else◌,
}
use vm_auth_scope.Base.Result.{Result, ok, err, ◌>>=◌, map_err}
use vm_auth_scope.Base.Result.Laws.{
  ok_injective, >>=-eq-ok, map_err-eq-ok, >>=_of_ok, map_err_of_ok,
}
use vm_auth_scope.Io.{AnyError, IoError, io, json}
use vm_auth_scope.Proto.Json.{Json}

module _ {Cfg : Type 0} (J : Json Cfg) (port : Cfg → ℕ) (refused : ℕ → AnyError)
    (read_to_string : Text → Result IoError Text) (path : Text) where
  -- The file's text is the JSON form of the configuration, whose port is below 1000.
  pub record IsLoaded (cfg : Cfg) : Type 0 where
    pub contents : Text
    pub file_read : read_to_string path ≡ ok contents
    pub parsed : J.from_slice contents ≡ ok cfg
    pub low_port : port cfg < 1000

  abbrev pub checked : Cfg → Result AnyError Cfg
  checked cfg = if leb 1000 (port cfg) then err (refused (port cfg)) else ok cfg

  abbrev pub loading : Result AnyError Cfg
  loading = do
    contents ← map_err io (read_to_string path)
    cfg ← map_err json (J.from_slice contents)
    checked cfg

  checked-eq-ok : (c cfg : Cfg) → checked c ≡ ok cfg → (c ≡ cfg) × (port cfg < 1000)
  checked-eq-ok c cfg h = elim (Bool-cases (leb 1000 (port c))) [
    | inl high ↦ absurd (cc (rw high at h))
    | inr low ↦
        let same = ok_injective (rw low at h) in
        (same, subst (λ x. port x < 1000) same (ground arith))
  ]

  pub loading_iff : (cfg : Cfg) → (loading ≡ ok cfg) ↔ IsLoaded cfg
  loading_iff cfg = (sound, complete)
    where
      sound : loading ≡ ok cfg → IsLoaded cfg
      sound h =
          let (contents, e₁, h₁) = >>=-eq-ok _ _ h in
          let (c, e₂, h₂) = >>=-eq-ok _ _ h₁ in
          let (same, low) = checked-eq-ok c cfg h₂ in
          record {
            contents = contents;
            file_read = map_err-eq-ok _ _ e₁;
            parsed = map_err-eq-ok _ _ e₂ ∙ ap ok same;
            low_port = low;
          }

      complete : IsLoaded cfg → loading ≡ ok cfg
      complete l =
          let low : leb 1000 (port cfg) ≡ false = ground (arith, l.low_port) in
          >>=_of_ok _ _ (map_err_of_ok _ _ l.file_read)
          ∙ >>=_of_ok _ _ (map_err_of_ok _ _ l.parsed)
          ∙ (rw low refl)
