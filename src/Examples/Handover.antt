-- ===== src/Examples/Handover.antt =====
-- A job of `submit`, as a worker reads it.
use cria.Prelude.{◌≤◌, ◌<◌, ◌≡◌, refl, false, none, some, arith}
use cria.Table.{assoc_map}
use cria.Text.{trim, trim_start, trim_end, is_whitespace}
use cria.Worker.Events.{InferenceJob, Payload}
use cria.Worker.Backend.{returns}
use cria.Worker.Loop.{Message, Setting, read, read_job, loaded}
use cria.Worker.Handover.{job-handed}
use cria.Examples.Setup.{channels, broker, config, idle, ambient, asking}
use cria.Examples.Service.{job, job_begun}

abbrev job_payload : Payload
job_payload = record {
  request_id = some "r1";
  model_id = some "mock";
  prompt = some "hi";
  max_tokens = some 4;
  sampling = none;
  deadline_ms = some 1000;
}

abbrev small_setting : Setting
small_setting = record {
  producer = record { refuses = λ es e. none };
  refuses_commit = λ m. none;
  loads = λ text. loaded job_payload;
  backend = λ prompt n sampling. returns;
  worker_id = "w1";
  defaults = record { temperature = 7; top_p = 9; top_k = 50; seed = 0 };
}

abbrev job_message : Message
job_message = record { offset = 0; value = "the job" }

job-handed_example :
    (j : InferenceJob) × (read_job small_setting job_message ≡ read j)
    × (j.request_id ≡ "r1")
    × (j.prompt ≡ "hi")
    × (j.max_tokens ≡ 4)
    × (0 < j.max_tokens)
    × (j.max_tokens ≤ 8)
unfolding trim trim_start trim_end is_whitespace
job-handed_example =
    job-handed config idle (asking "r1" false) ambient job 0 small_setting job_message job_payload
      job_begun (omega arith) refl (record { request_id = refl; prompt = refl; max_tokens = refl })
