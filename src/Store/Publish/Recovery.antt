-- ===== src/Store/Publish/Recovery.antt =====
-- Recovery: a publication that stopped after its generation was installed is finished by the next one.
use ev4_builder_assistant_re.Base.{String, Bool, false}
use ev4_builder_assistant_re.Store.Directory.{Directory}

abbrev pub never : String → Bool
never point = false
