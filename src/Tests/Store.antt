-- ===== src/Tests/Store.antt =====
-- Publications of the first successor of the sample run: one that stops, and one that recovers.
use ev4_builder_assistant_re.Store.Publish.{is_missing}
use ev4_builder_assistant_re.Base.{
  String, Bool, List, [], ◌∷◌, Option, none, some, ◌≡◌, refl, true, false, str_eq, if◌then◌else◌,
}
use ev4_builder_assistant_re.Json.{Value, null, get}
use ev4_builder_assistant_re.Primitives.Manifest.{build_current_pointer}
use ev4_builder_assistant_re.Store.Directory.{GenerationFiles, Directory}
use ev4_builder_assistant_re.Store.Snapshot.{successor_manifest}
use ev4_builder_assistant_re.Store.Publish.{Expected, any_missing, publish_successor}
use ev4_builder_assistant_re.Store.Publish.Atomic.{Leaves}
use ev4_builder_assistant_re.Store.Publish.Outcomes.{publish_successor-Leaves}
use ev4_builder_assistant_re.Tests.Samples.{sample_sha, sample_run, sample_issue}

abbrev or_null : Option Value → Value
or_null none = null
or_null (some v) = v

abbrev second_manifest : Value
second_manifest = or_null (successor_manifest sample_sha sample_run sample_issue)

abbrev second_pointer : Value
second_pointer =
    build_current_pointer sample_sha second_manifest sample_issue.context sample_issue.checkpoint

-- Each file by a name for its bytes.
abbrev parse : String → Option Value
parse text =
    if str_eq text "manifest"
    then some second_manifest
    else if str_eq text "context"
    then some sample_issue.context
    else if str_eq text "session"
    then some sample_issue.session
    else if str_eq text "checkpoint"
    then some sample_issue.checkpoint
    else if str_eq text "pointer"
    then some second_pointer
    else none

abbrev no_problems : GenerationFiles → List String
no_problems g = []

abbrev any_pointer : Value → Bool
any_pointer v = true

abbrev second_files : GenerationFiles
second_files = record {
  manifest = some "manifest";
  context = some "context";
  session = some "session";
  checkpoint = some "checkpoint";
}

abbrev first_directory : Directory
first_directory = record {
  current = some "first";
  generations = (1, second_files) ∷ [];
  files = ("source/selected-source.json", "source") ∷ [];
}

abbrev interrupted_directory : Directory
interrupted_directory = record {
  current = some "first";
  generations = (2, second_files) ∷ (1, second_files) ∷ [];
  files = ("source/selected-source.json", "source") ∷ [];
}

abbrev second_expected : Expected
second_expected = record {
  predecessor_number = 1;
  next_number = 2;
  predecessor_id = get "checkpoint_id" sample_run.checkpoint;
  predecessor_sequence = get "checkpoint_sequence" sample_run.checkpoint;
  files = second_files;
  pointer = "pointer";
  auxiliary = [];
}

abbrev stops : String → Bool
stops point = str_eq point "before_CURRENT_rename"

second_complete : any_missing second_expected.files ≡ false
unfolding any_missing is_missing
second_complete = refl

publish_successor-Leaves_example : Leaves first_directory second_expected (
    publish_successor sample_sha parse no_problems any_pointer stops first_directory
      second_expected)
publish_successor-Leaves_example =
    publish_successor-Leaves sample_sha parse no_problems any_pointer stops first_directory
      second_expected second_complete
