-- ===== src/Adapters.antt =====
-- worker/src/agentstorm_worker/adapters/base.py and fake.py: what one call of an adapter does.
-- An adapter reports each tool to the lifecycle as it starts and lets an exception of the lifecycle
-- pass. So a call is the names of the tools that it starts, in order, and how it ends.
use agent_storm.Prelude.{String, false, some, List, [], ◌∷◌, concat}
use agent_storm.Models.{AdapterResponse, TestCase}
use agent_storm.Errors.{ExecutionError, Raised}

pub data Outcome : Type 0 where
  answered : AdapterResponse → Outcome
  raised : Raised → Outcome

pub record AdapterRun : Type 0 where
  pub tools : List String
  pub outcome : Outcome

-- An `ExecutionError` as an exception.
abbrev pub raise_error : ExecutionError → Raised
raise_error error = record {
  as_execution_error = some error;
  is_instance = λ _. false;
  status_code = 0;
}

-- `FakeAdapter.run`
unfoldable pub fake_run : TestCase → AdapterRun
fake_run test = record {
  tools = "fake.echo" ∷ [];
  outcome = answered (record {
    output = concat "fake response: " test.prompt;
    input_tokens = some 11;
    output_tokens = some 7;
    model_call_count = some 1;
    tool_call_count = some 1;
    metadata = [];
  });
}
