-- ===== src/Deployment/Success.antt =====
-- What a deployment that reports success has seen.
use certmon.Prelude.{
  ℕ, String, true, not, ◌≡◌, refl, sym, ◌∙◌, ap, Option, none, some, List, ◌==◌, eq_iff, is_none,
  strip, Bool-cases, inl, inr,
}
use mathlib.Core.Path.{subst}
use certmon.Outcome.{Result, ok, lift, ◌>>=◌}
use certmon.Permissions.{Permission, deploy_certificate, authorize}
use certmon.Db.Certificates.{get_certificate}
use certmon.Artifacts.{Store, has_certificate, read_public}
use certmon.Orchestrator.{World, on_database}
use certmon.Outcome.Rules.{returned}
use certmon.Orchestrator.Returns.{ReturnsAt, Returns, ensures_bind, ensures_lift, ensures_raise_if}
use certmon.Deployment.{
  Device, Material, PushAttempt, Verification, Deployer, Outcome, type_or_generic, event_details,
  chosen_job, verify_device,
}
use certmon.Deployment.Service.{
  mark_verified, update_job, public_artifacts, public_names, attempt, record_outcome,
  failed_deployment, verified_deployment, checked_deployment, pushed_deployment, routed_deployment,
  deploy_to, deploy_files, deploy_material, deploy,
}

-- the material is that of the certificate, and the verifier has answered "verified" for it
pub record IsVerified (d : Deployer) (device : Device) (store : Store) (certificate : String)
    (r : Outcome) : Type 0 where
  pub material : Material
  pub verification : Verification
  pub of_certificate : material.certificate_id ≡ certificate
  pub stored : read_public d.vault certificate "certificate.pem" store ≡ ok material.certificate_pem
  pub printed : d.fingerprint material.certificate_pem ≡ ok material.expected_fingerprint
  pub answered : d.verifier device material ≡ ok verification
  pub verified : verification.status ≡ "verified"
  pub reported : r.verification ≡ some verification

module _ (current : Option (List Permission)) (d : Deployer) (now : ℕ) (device : Device)
    (store : Store) (certificate : String) (id : Option String) where
  -- an outcome that is a success only of a verified device
  abbrev IsHonest : Outcome → Type 0
  IsHonest r = r.succeeded ≡ true → IsVerified d device store certificate r

  module _ (name : String) (files : List (String × Option String)) where
    ensures_outcome :
        (r : Outcome)
        → IsHonest r
        → Returns IsHonest (record_outcome current d now device certificate id name files r)
    unfolding record_outcome
    ensures_outcome r h =
        ensures_bind IsHonest
          (on_database (
            certmon.Db.Jobs.record_event now "certificate_deployment"
              (event_details device certificate name r) id))
          (λ _ w. (ok r, w)) λ _ w a e. subst IsHonest (returned r a e) h

    ensures_failed :
        (log : List String) (v : Option Verification) (code message : String)
        → Returns IsHonest
            (failed_deployment current d now device certificate id name files log v code message)
    unfolding failed_deployment
    ensures_failed log v code message =
        ensures_bind IsHonest (update_job current d now id certificate code message) _
          λ job. ensures_outcome _ λ no. absurd cc

    module _ (material : Material) (of_certificate : material.certificate_id ≡ certificate)
        (stored : read_public d.vault certificate "certificate.pem" store
          ≡ ok material.certificate_pem)
        (printed : d.fingerprint material.certificate_pem ≡ ok material.expected_fingerprint) where
      ensures_verified :
          (log : List String) (v : Verification)
          → d.verifier device material ≡ ok v
          → v.status ≡ "verified"
          → Returns IsHonest
              (verified_deployment current d now device certificate id name files log v)
      unfolding verified_deployment
      ensures_verified log v answered verified =
          ensures_bind IsHonest (mark_verified current d now id certificate) _ λ job.
            ensures_outcome _ λ _. record {
              material = material;
              verification = v;
              of_certificate = of_certificate;
              stored = stored;
              printed = printed;
              answered = answered;
              verified = verified;
              reported = refl;
            }

      ensures_checked :
          (log : List String) (v : Verification)
          → d.verifier device material ≡ ok v
          → Returns IsHonest
              (checked_deployment current d now device certificate id name files log v)
      unfolding checked_deployment
      ensures_checked log v answered = elim (Bool-cases (v.status == "verified")) [
        | inl e ↦ rw e (ensures_verified log v answered ((eq_iff v.status "verified").0 e))
        | inr e ↦ rw e (ensures_failed log (some v) _ _)
      ]

      ensures_pushed :
          (a : PushAttempt)
          → Returns IsHonest
              (pushed_deployment current d now device certificate id name files material a)
      unfolding pushed_deployment
      ensures_pushed a = elim (Bool-cases a.success) [
        | inl e ↦ λ w. rw e (
            ensures_lift IsHonest w (d.verifier device material)
              (checked_deployment current d now device certificate id name files a.log)
              (λ v answered. ensures_checked a.log v answered w))
        | inr e ↦ rw e (ensures_failed a.log none _ _)
      ]

      ensures_routed :
          (push : Option (Device → Material → Store → Result PushAttempt))
          → Returns IsHonest
              (routed_deployment current d now device certificate id name files material push)
      unfolding routed_deployment
      ensures_routed none = ensures_failed _ none _ _
      ensures_routed (some push) =
          λ w. ensures_pushed (attempt current d now (push device material w.store)) w

  ensures_to :
      (files : List (String × Option String)) (pem f : String)
      → read_public d.vault certificate "certificate.pem" store ≡ ok pem
      → d.fingerprint pem ≡ ok f
      → Returns IsHonest (deploy_to current d now device certificate id files pem f)
  unfolding deploy_to
  ensures_to files pem f stored printed =
      let name = d.lower_text (strip (type_or_generic device.device_type)) in
      ensures_routed name files _ refl stored printed (d.adapter name)

module _ (current : Option (List Permission)) (d : Deployer) (now : ℕ) (device : Device)
    (certificate : String) (id : Option String) (w : World) where
  abbrev Honest : Outcome → Type 0
  Honest = IsHonest current d now device w.store certificate id

  ensures_files :
      (files : List (String × Option String))
      → ReturnsAt Honest w (deploy_files current d now device certificate id files)
  unfolding deploy_files
  ensures_files files =
      ensures_lift Honest w (read_public d.vault certificate "certificate.pem" w.store)
        (λ pem.
          lift (d.fingerprint pem) >>= deploy_to current d now device certificate id files pem)
        λ pem stored.
          ensures_lift Honest w (d.fingerprint pem)
            (deploy_to current d now device certificate id files pem)
            λ f printed.
              ensures_to current d now device w.store certificate id files pem f stored printed w

  ensures_material : ReturnsAt Honest w (deploy_material current d now device certificate id)
  unfolding deploy_material
  ensures_material =
      ensures_lift Honest w
        (public_artifacts current d now w.store certificate (public_names current d now))
        (deploy_files current d now device certificate id) λ files _. ensures_files files

-- A deployment that reports success: the verifier has answered "verified" for the device and the
-- material of this very certificate, whose text is the stored `certificate.pem` and whose expected
-- fingerprint is that of this text, and that answer is the one that is reported.
pub deploy-IsVerified :
    (current : Option (List Permission)) (d : Deployer) (now : ℕ) (device : Device)
    (certificate : String) (id : Option String) (w : World) (r : Outcome)
    → (deploy current d now device certificate id w).0 ≡ ok r
    → r.succeeded ≡ true
    → IsVerified d device w.store certificate r
unfolding deploy
deploy-IsVerified current d now device certificate id w =
    let honest = Honest current d now device certificate id w in
    ensures_lift honest w (authorize deploy_certificate none current) _ λ _ _.
      ensures_raise_if honest w (is_none (get_certificate certificate w.database)) _ _ (
        ensures_lift honest w (has_certificate d.vault certificate w.store) _ λ there _.
          ensures_raise_if honest w (not there) _ _ (
            ensures_material current d now device certificate (chosen_job id certificate w.database)
              w))

verify_device-matches :
    (observed : Option String) (m : Material)
    → (verify_device observed m).status ≡ "verified"
    → observed ≡ some m.expected_fingerprint
unfolding verify_device
verify_device-matches none m e = absurd (cc ((eq_iff "unreachable" "verified").1 e))
verify_device-matches (some f) m e = elim (Bool-cases (f == m.expected_fingerprint)) [
  | inl same ↦ ap some ((eq_iff f m.expected_fingerprint).0 same)
  | inr other ↦ absurd (cc (rw other at e))
]

-- A deployment that reports success, when the verifier compares the fingerprint that the device
-- shows: the device shows the fingerprint of the stored `certificate.pem`.
pub deploy-shows :
    (current : Option (List Permission)) (d : Deployer) (now : ℕ) (device : Device)
    (observed : Option String) (certificate : String) (id : Option String) (w : World) (r : Outcome)
    → ((m : Material) → d.verifier device m ≡ ok (verify_device observed m))
    → (deploy current d now device certificate id w).0 ≡ ok r
    → r.succeeded ≡ true
    → (pem : String) × ((f : String) × ((read_public d.vault certificate "certificate.pem" w.store
            ≡ ok pem)
          × (d.fingerprint pem ≡ ok f)
          × (observed ≡ some f)))
deploy-shows current d now device observed certificate id w r verifier returns success =
    let seen = deploy-IsVerified current d now device certificate id w r returns success in
    let m = seen.material in
    let same : seen.verification ≡ verify_device observed m =
      returned seen.verification (verify_device observed m) (sym seen.answered ∙ verifier m) in
    (
      m.certificate_pem,
      (
        m.expected_fingerprint,
        (
          seen.stored,
          seen.printed,
          verify_device-matches observed m
              (ap (λ (v : Verification). v.status) (sym same) ∙ seen.verified),
        ),
      ),
    )
