-- ===== src/Kernel/Tests.antt =====
-- Runs of the small control program, and the theorems at them.
use boatstack.Base.Int.{ℤ}
use boatstack.Kernel.Identifier.{semantic_id}
use boatstack.Base.{arith, eq_iff, ◌≢◌, some, All, ◌↔◌, ◌≡◌, refl, true, false, none, List, [], ◌∷◌}
use boatstack.Kernel.Types.{ControlState, Receipt}
use boatstack.Kernel.Trace.{DecisionKind}
use boatstack.Kernel.Error.{Reason, Result, ok, err}
use boatstack.Kernel.Runtime.{Resolution}
use boatstack.Kernel.Runtime.Resolve.{resolve, resolve_request}
use boatstack.Kernel.Runtime.Resolve.Sound.{MayStart, resolve-MayStart}
use boatstack.Kernel.Ports.{ResolveRequest}
use boatstack.Kernel.Runtime.Apply.{apply}
use boatstack.Kernel.Program.Compile.{compile_domain_program, prepare, validate_program}
use boatstack.Kernel.Opened.{kernel_code}
use boatstack.Kernel.Types.{AuthorityProjection, Capability}
use boatstack.Kernel.Authority.{projection}
use boatstack.Kernel.Freshness.{check_freshness, validate_freshness}
use boatstack.Kernel.Prescription.{validate_current, new_prescription}
use boatstack.Kernel.Prescription.Current.{
  IsCurrent, check_freshness-eq-ok, validate_current-IsCurrent,
}
use boatstack.Kernel.Prescription.RoundTrip.{new_prescription-validate_current}
use boatstack.Kernel.Authority.Projection.{Projects, projection-Projects}
use boatstack.Kernel.Capability.{normalize_capabilities}
use boatstack.Kernel.Capability.Normal.{IsNormalOf, normalize-IsNormalOf, normalize_total}
use boatstack.Kernel.Program.RoundTrip.{compile-validate}
use boatstack.Kernel.Program.WellFormed.{IsPrepared, prepare-IsPrepared}
use boatstack.Kernel.Relation.{
  RelationCandidate, RelationInput, decide, missing_authority, authority_trace,
}
use boatstack.Kernel.Relation.Grants.{
  Granted, missing_authority-nil_iff, satisfied-missing_authority,
}
use boatstack.Kernel.Trace.{CandidateDisposition}
use boatstack.Kernel.Relation.Disposition.{IsPrescribed, trace_of, selected_iff}
use boatstack.Kernel.Relation.Selection.{IsPreferred, is_shut, prescribed_iff}
use boatstack.Kernel.Runtime.Logged.{Logged, logged}
use boatstack.Kernel.Runtime.Resolve.Quiet.{resolve_request-log}
use boatstack.Kernel.Runtime.Apply.Safety.{Outcome, apply-Outcome}
use boatstack.Kernel.Examples.{
  build, repair, observation, digest, grant, codec, program, idle, runtime, resolve_build,
  apply_build, prescription,
}

abbrev kind_of : Result Resolution → DecisionKind
kind_of (ok r) = r.decision.kind
kind_of (err e) = DecisionKind.unset

resolves : kind_of (resolve_request runtime resolve_build idle).0 ≡ DecisionKind.prescribed
unfolding kernel_code
resolves = refl

abbrev after_build : Result Receipt × ControlState
after_build = apply runtime apply_build idle

applies : (after_build.1.mode ≡ "built") × (after_build.1.revision ≡ 9)
unfolding kernel_code
applies = (refl, refl)

program_prepares : prepare program ≡ ok program
unfolding kernel_code
program_prepares = refl

abbrev start : Logged ControlState
start = record { log = []; world = idle }

abbrev build_ends : Result Receipt × Logged ControlState
build_ends = apply (logged runtime) apply_build start

apply-Outcome_example : Outcome (logged runtime) apply_build build_ends.0 build_ends.1.log
apply-Outcome_example = apply-Outcome runtime apply_build idle

resolve_request-log_example : (resolve_request (logged runtime) resolve_build start).1.log ≡ []
resolve_request-log_example = resolve_request-log runtime resolve_build start

abbrev build_candidate : RelationCandidate
build_candidate = record {
  id = "work/build";
  rank = ℤ.pos 0;
  priority = ℤ.pos 2;
  selectable = true;
  required_all = "repository.write" ∷ [];
  required_any = "human" ∷ "agent" ∷ [];
}

abbrev two_candidates : RelationInput
two_candidates = record {
  requested = "";
  marked = false;
  no_candidate = DecisionKind.unset;
  candidates =
      record build_candidate { id = "work/test"; priority = ℤ.pos 3 } ∷ build_candidate ∷ [];
  available = "agent" ∷ "repository.write" ∷ [];
}

prescribed_iff_example :
    (((decide two_candidates).kind ≡ DecisionKind.prescribed)
      × ((decide two_candidates).transition ≡ "work/build"))
    ↔ ((is_shut two_candidates ≡ false)
        × ((c : RelationCandidate) × IsPreferred two_candidates c
            × Granted c two_candidates.available
            × (c.id ≡ "work/build")))
prescribed_iff_example = prescribed_iff two_candidates "work/build" (λ e. cc)

prescribes_build :
    ((decide two_candidates).kind ≡ DecisionKind.prescribed)
    × ((decide two_candidates).transition ≡ "work/build")
unfolding kernel_code
prescribes_build = (refl, refl)

missing_authority-nil_iff_example :
    (missing_authority build_candidate two_candidates.available ≡ [])
    ↔ Granted build_candidate two_candidates.available
missing_authority-nil_iff_example =
    missing_authority-nil_iff build_candidate two_candidates.available

satisfied-missing_authority_example :
    ((authority_trace build_candidate ("agent" ∷ [])).satisfied ≡ true)
    ↔ (missing_authority build_candidate ("agent" ∷ []) ≡ [])
satisfied-missing_authority_example = satisfied-missing_authority build_candidate ("agent" ∷ [])

abbrev repeated : List Capability
repeated = "b" ∷ "a" ∷ "b" ∷ []

normalizes : normalize_capabilities repeated ≡ ok ("a" ∷ "b" ∷ [])
unfolding kernel_code
normalizes = refl

normalize-IsNormalOf_example : IsNormalOf repeated ("a" ∷ "b" ∷ [])
normalize-IsNormalOf_example = normalize-IsNormalOf repeated ("a" ∷ "b" ∷ []) normalizes

semantic_identifiers : All (λ v. semantic_id v ≡ true) repeated
unfolding kernel_code
semantic_identifiers = (refl, (refl, (refl, tt)))

normalize_total_example : (result : List Capability) × (normalize_capabilities repeated ≡ ok result)
normalize_total_example = normalize_total repeated semantic_identifiers

abbrev granted_write : AuthorityProjection
granted_write = record { fingerprint = digest; capabilities = "repository.write" ∷ [] }

projects : projection codec 100 (grant ∷ []) ≡ ok granted_write
unfolding kernel_code
projects = refl

projection-Projects_example : Projects 100 (grant ∷ []) granted_write
projection-Projects_example = projection-Projects codec 100 (grant ∷ []) granted_write projects

prepare-IsPrepared_example : IsPrepared program
prepare-IsPrepared_example = prepare-IsPrepared program program program_prepares

-- The transitions out of order.
compiles :
    compile_domain_program codec "example" "1" "1" "" "idle" ("built" ∷ []) (repair ∷ build ∷ [])
    ≡ ok program
unfolding kernel_code
compiles = refl

digest-ne-empty : digest ≢ ""
digest-ne-empty e = ground (arith, eq_iff digest "")

compile-validate_example : validate_program codec program ≡ ok tt
compile-validate_example =
    compile-validate codec (λ text. digest-ne-empty) "example" "1" "1" "" "idle" ("built" ∷ [])
      (repair ∷ build ∷ []) program compiles

check_freshness-eq-ok_example :
    (check_freshness prescription.freshness prescription.freshness ≡ ok tt) ↔ (
      (validate_freshness prescription.freshness ≡ ok tt)
      × (prescription.freshness ≡ prescription.freshness))
check_freshness-eq-ok_example = check_freshness-eq-ok prescription.freshness prescription.freshness

is_current_now : validate_current codec prescription idle observation granted_write ≡ ok tt
unfolding kernel_code
is_current_now = refl

validate_current-IsCurrent_example : IsCurrent codec prescription idle observation granted_write
validate_current-IsCurrent_example =
    validate_current-IsCurrent codec prescription idle observation granted_write is_current_now

makes_prescription :
    new_prescription codec idle observation build none granted_write ("repository.write" ∷ [])
    ≡ ok prescription
unfolding kernel_code
makes_prescription = refl

new_prescription-validate_current_example :
    validate_current codec prescription idle observation granted_write ≡ ok tt
new_prescription-validate_current_example =
    new_prescription-validate_current codec idle observation granted_write build none
      ("repository.write" ∷ []) prescription makes_prescription

abbrev untraced : ResolveRequest
untraced = record resolve_build { trace = false }

abbrev resolution : Resolution
resolution = record {
  state = idle;
  observation = observation;
  decision = record {
    kind = DecisionKind.prescribed;
    transition = "work/build";
    candidates = [];
    reason = Reason.admitted_highest_priority;
  };
  prescription = some prescription;
  trace = none;
}

resolves_build : (resolve runtime idle observation untraced idle).0 ≡ ok resolution
unfolding kernel_code
resolves_build = refl

resolve-MayStart_example :
    MayStart runtime idle untraced (runtime.ports.now idle).0 resolution.decision
resolve-MayStart_example =
    resolve-MayStart runtime idle observation untraced resolution idle resolves_build refl

selected_iff_example :
    ((trace_of two_candidates build_candidate).disposition ≡ CandidateDisposition.selected)
    ↔ IsPrescribed (decide two_candidates) "work/build"
selected_iff_example = selected_iff two_candidates build_candidate (λ e. cc)
