-- ===== src/Client/Examples.antt =====
-- Two calls of `select`, one of them twice.
use reinforce_spec.Prelude.{ℕ, ◌+◌, ◌≡◌, refl, true, String, [], ◌∷◌, some, none}
use reinforce_spec.Types.{CandidateSpec, SpecFormat, SelectionMethod, DegradationLevel}
use reinforce_spec.Persistence.{created, has_request}
use reinforce_spec.Persistence.Selections.{Sound}
use reinforce_spec.ReplayBuffer
use reinforce_spec.Environment
use reinforce_spec.Scoring.{Scorer, Json, Members, Number, CustomerType, get_preset}
use reinforce_spec.Selector.{HybridSelector}
use reinforce_spec.Prelude.Dict.{lookup}
use reinforce_spec.Prelude.Sort.{sort_desc, insert_desc}
use reinforce_spec.SumTree
use reinforce_spec.ReplayBuffer.Transitions.{Transition}
use reinforce_spec.Policy.{
  PolicyStage, PolicyMetadata, PpoPolicy, Manager, find_production, list_policies,
}
use reinforce_spec.Policy.Ids.{id_eq}
use reinforce_spec.Client.Training.{Trainer, train_policy}
use reinforce_spec.Client.Trained.{Kept, train_policy-Kept}
use reinforce_spec.Client.Defs.{Client, SelectCall, Outcome, SelectError, select}
use reinforce_spec.Client.Records.{selects, history-Sound}
use reinforce_spec.Client.Repeated.{select-Repeated}
use reinforce_spec.Client.Succeeds.{Answered, select-Answered}

abbrev spec : String → CandidateSpec
spec content = record {
  index = 0;
  content = content;
  format = SpecFormat.text;
  source_model = "";
  dimension_scores = [];
  composite_score = 0;
}

abbrev scorer : Scorer
scorer = record {
  one = 10;
  judge_models = "a/one" ∷ [];
  multi_judge = true;
  judge_samples_per_model = 1;
  pairwise_top_k = 2;
  lower = λ t. t;
  read_float = λ t. none;
  reply = λ c model sample. some (
      some
        (Json.object (Members.member "finops_cost" (Json.number (Number.finite 40)) Members.nil)));
  verdict = λ a b. some "B";
}

abbrev selector : HybridSelector
selector = record {
  policy = none;
  floats = record {
    quotient = λ x most. x;
    single = λ p. p;
    reduced = λ w x y. 0;
    rest_of = λ w. 10;
    times = λ w x. x;
    plus = λ x y. x;
  };
  one = 10;
  rl_weight = 5;
  confidence_threshold = 3;
  degradation_level = DegradationLevel.l0_full;
}

abbrev client : Client
client = record {
  n_candidates = 5;
  window_size = 500;
  scorer = scorer;
  selector = selector;
  storage = created;
  env = Environment.init 10 5 5;
  replay_buffer = ReplayBuffer.init 8 10;
  current = [];
}

abbrev call : String → SelectCall
call id = record {
  request_id = id;
  candidates = spec "first" ∷ spec "second" ∷ [];
  weights = get_preset CustomerType.bank;
  customer_type = some "bank";
  selection_method = SelectionMethod.hybrid;
  description = "";
  now = 7;
}

history-Sound_example :
    Sound (selects (λ e. e) (call "a" ∷ call "b" ∷ call "a" ∷ []) client).storage
history-Sound_example = history-Sound (λ e. e) (call "a" ∷ call "b" ∷ call "a" ∷ []) client refl

select-Repeated_example :
    let later = selects (λ e. e) (call "a" ∷ call "b" ∷ []) client in
    select (λ e. e) (call "a") later ≡ (Outcome.raised SelectError.integrity_error, later)
select-Repeated_example =
    select-Repeated (λ e. e) (call "a") (call "b" ∷ []) (call "a") client refl refl refl

select-Answered_example : Answered (call "a") client (select (λ e. e) (call "a") client)
unfolding has_request
select-Answered_example =
    select-Answered (λ e. e) (call "a") client ("a/one" ∷ []) refl refl (tt, (tt, tt)) refl

-- A policy in production whose weights are a number, and a buffer with one transition.
abbrev in_production : PolicyMetadata
in_production = record {
  id = 1 ∷ [];
  version = 1;
  stage = PolicyStage.production;
  created_at = 3;
  promoted_at = some 4;
  archived_at = none;
  train_steps = 0;
  metrics = [];
  checksum = "old";
  parent_id = none;
}

abbrev manager : Manager ℕ
manager = record {
  registry = (1 ∷ [], in_production) ∷ [];
  active_policy = some (record { weights = 5; train_steps = 2 });
  disk = record { registry = none; models = (1 ∷ [], 5) ∷ []; metadata = []; link = some (1 ∷ []) };
}

abbrev trainer : Trainer ℕ
trainer = record {
  library = record { fresh = 0; digest = λ w. "new" };
  learn = λ w env steps. record { completed = true; weights = w + steps; env = env };
  predictor = λ policy. record { predict = λ obs. (0, 5); get_action_probabilities = λ obs. [] };
  env = Environment.init 10 5 5;
  draw = λ i. 4;
  batch_size = 64;
  ppo_batch_size = 16;
}

abbrev transition : Transition
transition = record {
  observation = 3 ∷ [];
  action = 0;
  reward = 30;
  next_observation = 3 ∷ [];
  done = true;
  candidate_rewards = none;
}

abbrev learner : Client
learner = record client {
  replay_buffer = ReplayBuffer.add (λ e. e) transition none (ReplayBuffer.init 2 10);
}

abbrev policy : PpoPolicy ℕ
policy = record { weights = 5; train_steps = 2 }

train_policy-Kept_example :
    Kept trainer
      (1 ∷ [])
      (record { weights = 6; train_steps = 3 })
      (train_policy trainer 9 none manager learner)
unfolding ReplayBuffer.init ReplayBuffer.add ReplayBuffer.sample ReplayBuffer.collect SumTree.total
    SumTree.add SumTree.sample SumTree.init SumTree.update_tree SumTree.climb SumTree.walk
    find_production list_policies lookup sort_desc insert_desc
train_policy-Kept_example =
    train_policy-Kept trainer 9 none manager learner policy in_production in_production transition
      [] (1 ∷ []) refl refl refl refl refl refl refl
