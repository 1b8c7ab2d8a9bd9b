-- ===== src/Lib.antt =====
-- A model of the supervisory-control kernel of Boatstack and of the part of software delivery that
-- decides on it, with the theorems that hold of them.
--
-- The kernel (boatstack/kernel) is the domain-neutral mechanism of Boatstack. A control program is
-- compiled from transitions; a runtime loads the durable control state, takes an observation of the
-- domain, and relates both with the authority that the request brings to a decision, which
-- prescribes at most one transition. To apply a prescription is to check it against the present, to
-- resolve again, to begin the effect in the store, to run the operator, to observe and verify, and
-- to commit the target state together with a receipt. Domain, operator, classifier, store, locker
-- and clock are interfaces.
--
-- Software delivery (boatstack/internal/softwaredelivery) is the domain that Boatstack supervises. A
-- snapshot is an observation of the repository, checked and fingerprinted by Canonicalize. A catalog
-- declares the transitions: what may be done, in which states, for which objectives, on whose
-- authority and with which effects; New checks them and makes a registry. The supervisor resolves a
-- request to at most one transition of the registry: it rejects one candidate after the other and
-- hands those that are left to the selection relation of the kernel. Its guard judges shell
-- commands, which it classifies by regular expressions.
--
-- Base        shared names, lists, texts, Go's `int` and the sort; `sort` is an insertion sort, for
--             `sort.Slice` where the order of equal elements does not matter
-- Kernel      boatstack/kernel
--   Types         the records of types.go, program.go, freshness.go and runtime.go
--   Trace         trace.go
--   Error, Exec   errors as values, and code that calls ports; what a port has done before an error
--                 stays done. A panic is an error of its own where the kernel itself can panic; a
--                 port that panics is not modelled
--   Identifier    the two regular expressions of types.go, as functions on texts
--   Codec         contentHash. `json.Marshal`, `json.Valid` and SHA-256 are parameters
--   Objective, State, Capability, Authority   the validation and projections of types.go
--   Freshness     freshness.go
--   Relation      relation.go: `relate` is `decide` with the traces
--   Program       program.go: `prepare`, the compilers and the look-ups are in Program/Compile. A
--                 map is an association list, the latest entry first
--   Ports         the interfaces and requests of runtime.go, over a world that is a parameter
--   Prescription  objectiveFor, newPrescription and validateCurrent
--   Receipt       validateEffects and Receipt.Validate
--   Runtime       the helpers; Runtime/Consider is the loop of resolve over the transitions,
--                 Runtime/Resolve the rest of it with Resolve, and Runtime/Apply is Apply with
--                 NewRuntime, each divided where the code can be left
--   Runtime/Logged   ports that also log which effects were begun, run and committed
-- Integer     boatstack/kernel/conformance/integer.go, the reference domain: Domain is the domain,
--             its operator and its classifier, Store the revision-CAS store, Fixture the program and
--             the ports made of them. JSON and the formats of `fmt` are parameters (Formats)
-- Delivery    boatstack/internal/softwaredelivery
--   Ports         the functions of Go's library and of other packages that the code calls, as one
--                 record of parameters (Library): JSON, SHA-256, paths, words, regular expressions
--   Model         model: a module for each string type of state.go, fact.go, identity.go, facet.go
--                 and state_facet.go; Fact and Health; Objective, Invocation and Contexts, the
--                 values with their validation; Observation, the records; Canonicalize; Facet, what
--                 a controller reads of a snapshot; StateFacets, sets of facets
--   Catalog       catalog: a module for each string type of transition.go; Capability and Authority,
--                 capability.go with AuthoritySet; Transition, Work and StateEffect, the records;
--                 Evaluation, the conditions and their trace; ObjectiveContract, StateFacetPolicy,
--                 NativeStateHandler and StateEffectClosure, the files of these names (the second is
--                 state_facet.go); WorkContract and Validate, validateTransition; Registry, New and
--                 the look-ups. The types that it takes from boatstack/controlprogram/ir.go are in
--                 Work
--   Supervisor    supervisor: Guard and Classify, the files of these names; Policy, the helpers of
--                 supervisor.go; Resolve, Supervisor.resolve with its trace, divided where a
--                 candidate can be rejected
--   Examples      a library, snapshots and transitions to evaluate the code on
--
-- A string type of Go with named constants is String, with a constant of the model for each. A map
-- is an association list, in the order of its entries where the code ranges over it. An error of
-- `fmt.Errorf` is its format with its arguments. Clones are identities.
--
-- Revisions are natural numbers, and their increments are modulo 2^64; a priority, a rank, a value
-- or a count is an integer, and its increments wrap around as a 64-bit `int` does. A time is a
-- natural number, and 0 is the zero time. All loops are structural recursion, so that no fuel is
-- needed.
--
-- Not modelled: contexts, mutexes and the order of two applications that run at once, ports that
-- panic, the texts of errors (an error is a constructor or a format with what the text is formatted
-- from), and the conformance test suite. Of software delivery, the protocol, the engine, the effects,
-- foreground work, durable state and delegation are not modelled; nor are the compiler of control
-- programs, the surfaces, the extensions and the commands, which mostly read and write files.
pub mod Base
pub mod Delivery
pub mod Integer
pub mod Kernel
