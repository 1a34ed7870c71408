-- ===== src/Service/Calls/Records.antt =====
-- Requests on artifacts, evidence and reviews as calls of the store.
use cairnline.Base.{String, ok, ◌≡◌, refl, arith, string_eq, Result-cases, inl, inr}
use cairnline.Model.Collaboration.{Artifact, Evidence, Review}
use cairnline.MemoryStore.Accept.{RequestPayload}
use cairnline.MemoryStore.Calls
use cairnline.MemoryStore.Calls.{dispatch, state}
use cairnline.MemoryStore.State.{Store}
use cairnline.Service.Calls.Step.{Called}
use cairnline.Service.Env.{Env}
use cairnline.Service.Normalize.{normalize_review_verdict, normalize_review_risk}
use cairnline.Service.Records
use cairnline.Service.Records.{artifact_of, evidence_of, review_of}
use cairnline.Service.Stated.{IsStated, IsSound, trim_space-IsStated, first_non_empty-IsStated}

verdict-IsStated :
    (value verdict : String) → normalize_review_verdict value ≡ ok verdict → IsStated verdict
unfolding normalize_review_verdict
verdict-IsStated value verdict h = ground (arith, trim_space-IsStated value)

module _ (fingerprint : RequestPayload → String) (env : Env) (sound : IsSound env) where
  pub create_artifact-Called :
      (s : Store) (input a : Artifact) (t : Store)
      → Records.create_artifact env s input ≡ ok (a, t)
      → Called fingerprint env s t
  unfolding Records.create_artifact dispatch artifact_of
  create_artifact-Called s input a t h = record {
    call = Calls.create_artifact (artifact_of env input);
    canonical = (
      trim_space-IsStated _ (ground arith),
      (
        trim_space-IsStated _ (ground arith),
        (
          first_non_empty-IsStated _ _ (sound.new_id "art" 0),
          (trim_space-IsStated _ (ground arith), (trim_space-IsStated _ (ground arith), tt)),
        ),
      ),
    );
    dispatched = ground arith;
  }

  pub create_evidence-Called :
      (s : Store) (input e : Evidence) (t : Store)
      → Records.create_evidence env s input ≡ ok (e, t)
      → Called fingerprint env s t
  unfolding Records.create_evidence dispatch evidence_of
  create_evidence-Called s input e t h = record {
    call = Calls.create_evidence (evidence_of env input);
    canonical = (
      (
        trim_space-IsStated _ (ground arith),
        (
          trim_space-IsStated _ (ground arith),
          (
            first_non_empty-IsStated _ _ (sound.new_id "ev" 0),
            (trim_space-IsStated _ (ground arith), tt),
          ),
        ),
      ),
      ground arith,
    );
    dispatched = ground arith;
  }

  pub create_review-Called :
      (s : Store) (input r : Review) (t : Store)
      → Records.create_review env s input ≡ ok (r, t)
      → Called fingerprint env s t
  unfolding Records.create_review dispatch review_of
  create_review-Called s input r t h =
      elim (Result-cases (normalize_review_verdict input.verdict)) [
        | inl (e, bad) ↦ absurd (ground arith)
        | inr (verdict, judged) ↦ elim (Result-cases (normalize_review_risk input.risk)) [
          | inl (e, bad) ↦ absurd (ground arith)
          | inr (risk, rated) ↦ record {
            call = Calls.create_review (review_of env verdict risk input);
            canonical = (
              (
                trim_space-IsStated _ (ground arith),
                (
                  trim_space-IsStated _ (ground arith),
                  (
                    first_non_empty-IsStated _ _ (sound.new_id "rev" 0),
                    (
                      trim_space-IsStated _ (ground arith),
                      (verdict-IsStated input.verdict verdict judged, tt),
                    ),
                  ),
                ),
              ),
              refl,
            );
            dispatched = ground arith;
          }
        ]
      ]
