-- ===== src/Jobs/Reader/Specs.antt =====
-- What a job that was read from a spec becomes at a follower.
use eavesdrop.Prelude.{string_eq}
use eavesdrop.Jobs.DirectRequest.{DirectRequest}
