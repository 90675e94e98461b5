-- ===== src/Lib.antt =====
-- UNICA, a multi-tenant customer-service hub (the Go services under unica/): a verification
-- library.
--
-- A message of a customer reaches the gateway (unica/gateway), which drops duplicates, retries the
-- processing and keeps dead letters. The router (unica/router) stores the message once in the
-- conversation of its customer, classifies it before the model is called, judges the model's
-- answer after, and hands a conversation over to an agent where one is needed. The packages that
-- the services share (unica/pkg) hold the policy on answers.
--
-- The parts and the files that model them:
-- - Domain/Breaker: unica/pkg/domain/breaker.go, the circuit breaker on suppressed answers:
--   `Breaker` with `Record` (record_outcome), `Allow`, `Open` (is_open) and `normalise`.
-- - Domain/Escalation: unica/pkg/domain/escalation.go, the tag by which the model asks for a
--   person: `ParseEscalation` and `AnnouncesTransfer`. Domain/Text: unica/pkg/domain/text.go,
--   `IsBlankAnswer`.
-- - Domain/Claims: unica/pkg/domain/claims.go, `ParseClaims`. Domain/Affirm: affirm.go.
-- - Domain/Config: unica/pkg/domain/config.go, the switches of a product line's ontology.
-- - Domain/Ontology: unica/pkg/domain/ontology.go, with Types the types, Hierarchy the classes,
--   Facts the assertions that hold in a scope, Values `CheckValue`, Consistency `Validate`, and
--   Labels the wordings of render.go.
-- - Domain/Validator: unica/pkg/domain/validator.go, `Validate` of an answer, with
--   Domain/Violation its violations.
-- - Router/State: unica/router/internal/state. Machine is machine.go. Store has the rows and
--   queries of repository.go. Manager has the world of manager.go (the tables, the cache of
--   cache.go and the calls of the close callback), `TransitionState`, the idle sweep and
--   `fireOnClose`. Inbound has `HandleInboundMessage` with the customer and the conversation that
--   it finds or creates.
-- - Router/Intent: unica/router/internal/intent, with Markers the tables, Classifier `Classify`
--   and Stage `ClassifyStage` and `ResolveStage`.
-- - Router/Guardrail: Evaluator is unica/router/internal/guardrail (evaluator.go and triage.go),
--   and Settings is unica/pkg/guardrail/config.go. Router/Harm relates the classifier and the
--   evaluator.
-- - Router/Judge: unica/router/internal/routing/judge.go, `JudgeAnswer`, with Router/Confidence
--   (confidence.go and grounding.go) and Router/Marketing
--   (unica/router/internal/marketing/detector.go).
-- - Router/Routing: unica/router/internal/routing/router.go. Process is `processMessage`, over the
--   manager of Router/State and the survey handler of Router/Survey; Answer is
--   `callDifyAndPublish`, with Context `prepareAIContext` and Deliver `deliverJudgement`; Publish
--   is what is written to the streams; Lock is lock.go. What is sent is a list of effects in their
--   order. Rules has one rule for each way that a message can take, which the properties use.
-- - Router/Survey: unica/router/internal/survey/handler.go, over the tables of Router/State and
--   the close callback of router.go, with Settings unica/pkg/survey/config.go; Rating is what
--   counts as a rating, Replies the answer to a survey, Sending the closing of a conversation,
--   Readable the texts that are sent.
-- - Router/Scheduling: unica/router/internal/scheduling, the pool of agents and `Assign`.
-- - Gateway/Dedup: unica/gateway/internal/dedup. Seen is `IsDuplicate`, and Retry is
--   `ExecuteWithRetry` with the dead letters.
-- - Gateway/Stream: unica/gateway/internal/stream/consumer.go, the processing of outbound entries.
-- - Gateway/RateLimit: unica/gateway/internal/ratelimit, `Limiter.Allow` over the sliding window
--   of a channel, and the bursts and cooldowns of `BurstDetector`.
-- - Common: Boolean tests, lists, rings, signed integers, maps, texts and floats that the parts
--   share.
--
-- How the code is modelled. A table is a list of rows with the newest first, a Go map or Redis key
-- space is a function from strings, and a call that fails is an entry of a record of faults (Env,
-- Faults) that the step takes, so that every error path is a branch of the definition. An
-- operation is one step: concurrent calls are sequences of steps, and a race within one call
-- (between the read and the write of a transition, or between the search for agents and the
-- increment) is not represented. Redis and the services share one clock. An `int` or `int64` is ℤ,
-- with its wrap-around (wrap64) where the program can reach it: in the breaker's times, in the
-- backoff, in the cooldowns and in a survey's time to live. Texts are lists of code points;
-- `unicode.ToLower` and the general categories of Unicode are parameters, with the one law that
-- lower case keeps white space where a theorem needs it. `float64` is the record Floats of the
-- operations that are used with the laws of IEEE 754 that the theorems need, and `fixed` satisfies
-- it. The decoding of JSON is a parameter.
--
-- Loops are structural on the rows, the messages, the markers, the characters and the attempts
-- that are left, but for three: the loop that joins spaces runs on the length of the text, which
-- is enough since every round makes it shorter; the walk of `distanceTo` has the 16 rounds of the
-- source; and that of `checkNoCycle` has two more than there are classes, since a class is seen
-- once.
--
-- Not modelled: HTTP, SQL, JSON and metrics as such; the adapters of the platforms, the bridges to
-- Dify and Chatwoot, the admin console and the reporter, which are I/O around a database; the
-- token refresh, the consumer of the handoff events, and the block of facts of the prompt. The
-- router takes the answers of the lock (which Router/Routing/Lock models by itself) and of the
-- recall service as they come. The wording of errors and of violations is left out or an argument.
pub mod Common
pub mod Domain
pub mod Gateway
pub mod Router
