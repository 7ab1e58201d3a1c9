-- ===== src/Commit/Crash/Validated.antt =====
-- graph/manifest.rs: what the validation of a manifest tells of its operations.
use ffhn.Base.{◌≡◌, ◌&&◌, not, List, [], ◌∷◌, All, any, length, list_eq, nat_eq, ◌==◌}
use ffhn.Base.Dict.{Dict, contains_key}
use ffhn.Base.Errors.{CoreResult, contract, ok, ◌>>◌, refuse_if, check_each, >>=-eq-ok}
use ffhn.Identity.{UuidLib, validate_instance_id}
use ffhn.Commit.Operation.{CommitOperation, validate_operation}
use ffhn.Commit.Manifest.{
  CommitManifest, CommitCause, check_paths, path_check_start, is_current, validate_entry, installs,
  measurement_state_path, is_delivery_result, is_remove, validate_manifest,
}
use ffhn.Commit.Crash.Resume.{Apart}
use ffhn.Commit.Crash.Valid.{HasPaths, operation-HasPaths, paths-Apart}

>>-tail :
    {A : Type 0} (check : CoreResult (Unit {0})) (rest : CoreResult A) {r : A}
    → (check >> rest) ≡ ok r
    → rest ≡ ok r
>>-tail check rest h = let (u, e, k) = >>=-eq-ok check (λ v. rest) h in k

entries-HasPaths :
    (cause : CommitCause) (ops : List CommitOperation)
    → check_each (validate_entry cause) ops ≡ ok tt
    → All HasPaths ops
entries-HasPaths cause [] h = tt
entries-HasPaths cause (op ∷ ops) h =
    let (u, e, k) = >>=-eq-ok (validate_entry cause op) _ h in
    let l =
      >>-tail
        (refuse_if (not (is_delivery_result cause) && is_remove op)
          (contract "acquisition commit must not remove durable records"))
        (validate_operation op) e in
    (operation-HasPaths op l, entries-HasPaths cause ops k)

module _ (lib : UuidLib) where
  -- In a validated manifest no operation touches the final path of another one.
  pub validate_manifest-Apart :
      (m : CommitManifest lib)
      → validate_manifest lib m ≡ ok tt
      → Apart m.entries × All HasPaths m.entries
  unfolding validate_manifest
  validate_manifest-Apart m h =
      let h₁ =
        >>-tail
          (refuse_if (not (is_current lib m))
            (contract "commit manifest is not a current nonempty FFHN commit manifest"))
          _ h in
      let h₂ = >>-tail (validate_instance_id lib m.source_instance_id) _ h₁ in
      let h₃ =
        >>-tail
          (refuse_if
            (any (λ entry. contains_key entry.0 m.identity_measurement_additions)
              m.touched_measurement_instances)
            (contract
              "commit manifest touched and identity-addition measurement maps must be disjoint"))
          _ h₂ in
      let h₄ =
        >>-tail
          (refuse_if
            (is_delivery_result m.cause && not (length m.identity_measurement_additions == 0))
            (contract "delivery-result commit must not create measurement lineage"))
          _ h₃ in
      let h₅ =
        >>-tail
          (refuse_if
            (any (λ entry. not (any (installs (measurement_state_path entry.0)) m.entries))
              m.identity_measurement_additions)
            (contract "commit identity addition requires its measurement state install operation"))
          _ h₄ in
      let (c, e, k) = >>=-eq-ok (check_paths path_check_start m.entries) _ h₅ in
      let k₁ =
        >>-tail
          (refuse_if (not (c.source_state_installs == 1)) (
            contract
              "every normal commit must install exactly one successor source-state document"))
          _ k in
      let valid_ids : Dict lib.Uuid → CoreResult (Unit {0}) =
        check_each (λ entry. validate_instance_id lib entry.1) in
      let k₂ = >>-tail (valid_ids m.touched_measurement_instances) _ k₁ in
      let k₃ = >>-tail (valid_ids m.identity_measurement_additions) _ k₂ in
      let paths = entries-HasPaths m.cause m.entries k₃ in
      (paths-Apart path_check_start m.entries e paths, paths)
