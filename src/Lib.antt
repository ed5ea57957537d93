-- ===== src/Lib.antt =====
-- The reinforce-spec service scores candidate specifications with language models and selects one
-- with a learned policy. This library models the parts of its Python code that keep state.
--
-- Breaker is `CircuitBreaker` of reinforce_spec/_internal/_client.py: its three states and one step
-- for each call of a method. OpenRouter is the client of the same file that uses the breaker:
-- `complete` with its retries, and `complete_with_fallback` over several models. The SDK's answers
-- and the clock's readings are arguments, and the decorator of tenacity is a record of its
-- documented behaviour, which a loop in OpenRouter.Retrying satisfies.
--
-- Policy is `PolicyManager` of reinforce_spec/_internal/_policy.py with its directory: the registry
-- file, the model files and the production link; a manager that starts again reads the same
-- directory. Weights are an abstract type. Policy.Stale is the order of calls that
-- `ReinforceSpec.train_policy` of reinforce_spec/client.py makes for a first training.
--
-- Idempotency is the in-memory store of reinforce_spec/_internal/_idempotency.py and the middleware
-- of reinforce_spec/server/middleware/idempotency.py. Tasks interleave as a list of events, since
-- a request gives up control only inside the application.
--
-- SumTree is the class of that name of reinforce_spec/_internal/_replay_buffer.py, an array in which
-- inner nodes hold the sums of their children, with a ring of data at the leaves; ReplayBuffer is
-- `PrioritizedReplayBuffer` of the same file. The walk down and the climb up take the length of the
-- array and the index as fuel: a child's index is larger than its parent's.
--
-- Scoring is `EnterpriseScorer` of reinforce_spec/_internal/_scorer.py, with the comparison and the
-- trimmed mean of reinforce_spec/_internal/_bias.py: Scoring.Weights has the dimensions and the
-- presets, Scoring.Judges reads a judge's answer, Scoring.Trimming aggregates the scores of several
-- judges, Scoring.Pointwise is `score_candidates`, and Scoring.Defs is its ranking. What the JSON
-- library reads from an answer is given, and a pairwise judge is a function from the two candidates
-- in the order shown to the winner that is read from its answer, if it answers.
--
-- Types has the candidates and the enumerations of reinforce_spec/types.py. Environment is
-- reinforce_spec/_internal/_environment.py: the observations, and `SpecSelectionEnv` with its replay
-- of stored transitions. Selector is reinforce_spec/_internal/_selector.py, over a policy that is its
-- two predictions; the operations on floats that it blends with are arguments that keep the order.
--
-- Persistence is `Storage` of reinforce_spec/_internal/_persistence.py: a table is a list of rows, and a
-- statement that the database refuses is none. Client is `ReinforceSpec` of reinforce_spec/client.py,
-- which scores, selects and records over all of these parts; each of its steps is a function of
-- what the step before it returned or raised. Client.Training is `train_policy` over Policy, with
-- `train_on_batch` of reinforce_spec/_internal/_policy.py.
--
-- Server is the exception handlers of reinforce_spec/server/app.py over the classes of
-- reinforce_spec/_exceptions.py, and `evaluate_specs` of reinforce_spec/server/routes/specs.py. How the
-- framework picks a handler is an argument with its documented behaviour.
--
-- Calibration is `ScoreCalibrator` of reinforce_spec/_internal/_calibration.py, with fractions for the
-- floats. The scorer only asks it for its anchors.
--
-- RateLimit is reinforce_spec/server/middleware/rate_limit.py, one step for each request.
--
-- SdkHttp is the transport of the Python SDK, sdks/python/src/reinforce_spec_sdk/_http.py, with the
-- errors of exceptions.py beside it: one function for each step of the request loop, over what httpx
-- does at each attempt. The loop recurses on the attempts that are left.
--
-- Backpressure is reinforce_spec/server/middleware/backpressure.py, with the semaphore as its value.
--
-- JobQueue is reinforce_spec/_internal/_queue.py. Its job objects are places in one list, since the
-- dictionary and the queue share them; each worker is a task with its place in its loop, which steps
-- from one suspension to the next, and `stop` is a step before and one after its `gather`. A job is
-- taken to let its cancellation through.
--
-- Prelude has what the parts share: tests on numbers and strings, dictionaries as association
-- lists, lists and sorting.
--
-- Numbers are natural numbers: times, costs and scores are counted in a fixed unit, to which
-- a mean is rounded down; weights of dimensions are whole hundredths. Sums of floats are exact, but
-- in Selector, where only the order of floats is used. Loops of the source are structural recursion;
-- the digits of an identifier are computed on fuel one more than the number, which is more than it
-- has digits. The candidates of a call of `select` are different objects.
--
-- Not modelled: logging and metrics, the Redis backend and the connection to the database, HTTP
-- routing, the numerical libraries, and the SDKs in other languages.
pub mod Backpressure
pub mod Breaker
pub mod Calibration
pub mod Client
pub mod Environment
pub mod Idempotency
pub mod JobQueue
pub mod OpenRouter
pub mod Persistence
pub mod Policy
pub mod Prelude
pub mod RateLimit
pub mod ReplayBuffer
pub mod Scoring
pub mod SdkHttp
pub mod Selector
pub mod Server
pub mod SumTree
pub mod Types
