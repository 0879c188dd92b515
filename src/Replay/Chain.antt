-- ===== src/Replay/Chain.antt =====
-- A history without a diagnostic is a chain of transitions.
use ev4_builder_assistant_re.Base.{ℕ, suc, String, Bool, ◌==◌, List, Option, some, ◌≡◌}
use ev4_builder_assistant_re.Json.{Value}
use ev4_builder_assistant_re.Publication.{Operation}
use ev4_builder_assistant_re.Planner.Types.{Predecessor, Successor}
use ev4_builder_assistant_re.Validation.Generation.{Generation}
use ev4_builder_assistant_re.Store.Directory.{GenerationFiles, Directory}
use ev4_builder_assistant_re.Store.Publish.{Expected}
use ev4_builder_assistant_re.Replay.Inputs.{
  Input, infer_committed_operation, input_of, recover_command_input,
}
use ev4_builder_assistant_re.Replay.Exact.{Replay}
use ev4_builder_assistant_re.Replay.Sound.{Rederived}
use ev4_builder_assistant_re.Replay.History.{read_view, active_of}

module _ (sha256 : String → String) (parse : String → Option Value)
    (state_problems : GenerationFiles → List String) (pointer_schema : Value → Bool)
    (derivation : Directory → Predecessor → List String) where
  -- Generation `n + 1` is the one that an operation makes of the generation before it, with the input that the
  -- directory keeps of it.
  pub record Link (d : Directory) (last n : ℕ) : Type 0 where
    pub generation : Generation
    pub before : Generation
    pub operation : Operation
    pub input : Input
    pub predecessor : Predecessor
    pub successor : Successor
    pub expected : Expected
    pub read :
        read_view sha256 parse state_problems pointer_schema derivation d (suc n) ≡ some generation
    pub read_before :
        read_view sha256 parse state_problems pointer_schema derivation d n ≡ some before
    pub inferred : infer_committed_operation generation.manifest before.manifest ≡ some operation
    pub recovered :
        recover_command_input parse d.files generation.manifest operation ≡ input_of input
    pub rederived :
        Rederived sha256 parse state_problems pointer_schema derivation d
          (active_of sha256 parse state_problems pointer_schema derivation generation)
          operation
          input
          (suc n == last)
          predecessor
          successor
          expected
